-- ===== src/QueueDev/Bytes/Rounds.antt =====
-- A writer of QueueDev/Bytes.antt that moves while the others stand still: its loop, and its whole call
-- against the function of QueueDev.antt.
use linux_dev_note.Common.{
  ℕ, zero, suc, ◌+◌, ◌≤◌, ◌<◌, ◌≡◌, ◌≢◌, refl, ap, ap₂, sym, subst, ◌∙◌, Bool, true, List, none,
  some, [], arith, length, length-set, set, get_or, ltb, Bool-cases, Option-cases, inl, inr, update,
  update-same, update-other, ltb→lt,
}
use mathlib.Core.Option.{some-injective}
use linux_dev_note.Common.Int.{pos}
use linux_dev_note.UserSpace.{UserBuffer, holding}
use linux_dev_note.CopyLoop.{store_loop}
use linux_dev_note.QueueDev.{Dev, Reply, write}
use linux_dev_note.QueueDev.Transfer.{loaded, write-loaded}
use linux_dev_note.QueueDev.Bytes.{
  WriteCall, ReadCall, Writer, starting, at_test, behind_loop, returned, System, Writes, start,
  enter, leave, store, fault, count, wake_up, return, writer_moves, Run, here, further,
}

module _ (writes : ℕ → WriteCall) (reads : ℕ → ReadCall) (n t : ℕ) (lt : t < n)
    (from s : System) where
  abbrev buf : UserBuffer
  buf = (writes t).buf

  abbrev size : ℕ
  size = (writes t).size

  -- A run from `from` on, whose end is behind `s` by moves of the writer `t` only.
  pub record To (d : Dev) (q : Writer) : Type 0 where
    pub last : System
    pub run : Run writes reads n from last
    pub dev_eq : last.dev ≡ d
    pub own : last.writer t ≡ q
    pub others : (u : ℕ) → t ≢ u → last.writer u ≡ s.writer u
    pub readers : last.reader ≡ s.reader

  pub step_on : {d d' : Dev} {q w : Writer} → To d q → Writes writes reads t d q d' w → To d' w
  step_on {d' = d'} {q = q} {w = w} p st = record {
    last = record p.last { dev = d'; writer = update p.last.writer t w };
    run = further p.run (
        writer_moves t q w d' lt p.own
          (subst (λ x. Writes writes reads t x q d' w) (sym p.dev_eq) st));
    dev_eq = refl;
    own = update-same p.last.writer t w;
    others = λ u ne. update-other p.last.writer t u w ne ∙ p.others u ne;
    readers = p.readers;
  }

  abbrev dev : List ℕ → ℕ → Bool → Dev
  dev byte k h = record { byte = byte; buff_len = k; havedata = h }

  pub one_round :
      (i k v : ℕ) (byte : List ℕ) (h : Bool)
      → k < size
      → k < length byte
      → buf.fetch i ≡ some v
      → To (dev byte k h) (at_test i)
      → To (dev (set byte k v) (suc k) h) (at_test (suc i))
  one_round i k v byte h more room e p =
      step_on (step_on (step_on p (enter i more)) (store i v room e)) (count (suc i))

  ends :
      (byte : List ℕ) (k : ℕ) (h : Bool) (r : List ℕ × ℕ) (q : Writer)
      → some (byte, k) ≡ some r
      → To (dev byte k h) q
      → To (dev r.0 r.1 h) q
  ends byte k h r q e = subst (λ (x : List ℕ × ℕ). To (dev x.0 x.1 h) q) (some-injective _ _ e)

  -- The whole loop.
  pub loop_run :
      (m i k : ℕ) (byte : List ℕ) (h : Bool) (r : List ℕ × ℕ)
      → k + m ≡ size
      → store_loop buf i m byte k ≡ some r
      → To (dev byte k h) (at_test i)
      → To (dev r.0 r.1 h) behind_loop
  unfolding store_loop
  loop_run zero i k byte h r all e p =
      ends byte k h r behind_loop e (step_on p (leave i (omega arith)))
  loop_run (suc m) i k byte h r all e p = elim (Bool-cases (ltb k (length byte))) [
    | inl f ↦
        let room = ltb→lt k (length byte) f in
        let p' = step_on p (enter i (omega arith)) in
        elim (Option-cases (buf.fetch i)) [
          | inr (v, g) ↦
              let rest : store_loop buf (suc i) m (set byte k v) (suc k) ≡ some r =
                rw (store_loop, f, g) at e in
              loop_run m (suc i) (suc k) (set byte k v) h r (omega arith) rest
                (one_round i k v byte h (omega arith) room g p)
          | inl g ↦
              let stopped : some (set byte k (buf.fault_fill (get_or byte k 0)), k) ≡ some r =
                rw (store_loop, f, g) at e in
              ends (set byte k (buf.fault_fill (get_or byte k 0))) k h r behind_loop stopped
                (step_on p' (fault i room g))
        ]
    | inr f ↦ let refused : none ≡ some r = rw (store_loop, f) at e in ground arith
  ]

  -- Some rounds of the loop, where the user's bytes can be read.
  pub record Stored (k i : ℕ) (h : Bool) (room : ℕ) : Type 0 where
    pub bytes : List ℕ
    pub as_long : length bytes ≡ room
    pub reached : To (dev bytes k h) (at_test i)

  pub rounds :
      (m i k i' k' : ℕ) (byte : List ℕ) (h : Bool)
      → i + m ≡ i'
      → k + m ≡ k'
      → k' ≤ size
      → k' ≤ length byte
      → ((j : ℕ) → j < i' → (v : ℕ) × (buf.fetch j ≡ some v))
      → To (dev byte k h) (at_test i)
      → Stored k' i' h (length byte)
  rounds zero i k i' k' byte h ei ek le fit readable p = record {
    bytes = byte;
    as_long = refl;
    reached =
        subst (λ a. To (dev byte a h) (at_test i')) {x = k} {y = k'} (omega arith)
          (subst (λ a. To (dev byte k h) (at_test a)) {x = i} {y = i'} (omega arith) p);
  }
  rounds (suc m) i k i' k' byte h ei ek le fit readable p =
      let (v, e) = readable i (omega arith) in
      let wide = length-set byte k v in
      let q =
        rounds m (suc i) (suc k) i' k' (set byte k v) h (omega arith) (omega arith) le (omega arith)
          readable (one_round i k v byte h (omega arith) (omega arith) e p) in
      record { bytes = q.bytes; as_long = q.as_long ∙ wide; reached = q.reached }

-- Another writer's turn.
pub next_turn :
    (writes : ℕ → WriteCall) (reads : ℕ → ReadCall) (n t u : ℕ) (lt : t < n) (lu : u < n)
    (from s : System) {d : Dev} {q : Writer} (w : Writer) (p : To writes reads n t lt from s d q)
    → t ≢ u
    → s.writer u ≡ w
    → To writes reads n u lu from p.last d w
next_turn writes reads n t u lt lu from s w p ne at = record {
  last = p.last;
  run = p.run;
  dev_eq = p.dev_eq;
  own = p.others u ne ∙ at;
  others = λ v ne'. refl;
  readers = refl;
}

-- The writer that moves first.
pub first_turn :
    (writes : ℕ → WriteCall) (reads : ℕ → ReadCall) (n t : ℕ) (lt : t < n) (s : System) (w : Writer)
    → s.writer t ≡ w
    → To writes reads n t lt s s s.dev w
first_turn writes reads n t lt s w at = record {
  last = s;
  run = here;
  dev_eq = refl;
  own = at;
  others = λ u ne. refl;
  readers = refl;
}

-- A writer before its loop that goes on while the others stand still does what the function `write` says,
-- where that is defined: it returns the same result, and leaves the device as `write` does and the others
-- where they were.
writer_alone :
    (writes : ℕ → WriteCall) (reads : ℕ → ReadCall) (n t : ℕ) (s : System) (r : Reply)
    → t < n
    → s.writer t ≡ starting
    → write (writes t).buf s.dev (writes t).size ≡ some r
    → (w : System) × Run writes reads n s w
      × (w.dev ≡ r.dev)
      × (w.writer t ≡ returned r.ret)
      × ((u : ℕ) → t ≢ u → w.writer u ≡ s.writer u)
      × (w.reader ≡ s.reader)
unfolding write
writer_alone writes reads n t s r lt at e =
    elim (Option-cases (store_loop (writes t).buf 0 (writes t).size s.dev.byte 0)) [
      | inl f ↦ let nothing : none ≡ some r = rw (write, f) at e in ground arith
      | inr (x, f) ↦
          let begun : To writes reads n t lt s s (record s.dev { buff_len = 0 }) (at_test 0) =
            step_on writes reads n t lt s s (first_turn writes reads n t lt s starting at) start in
          let looped =
            loop_run writes reads n t lt s s (writes t).size 0 0 s.dev.byte s.dev.havedata x
              (omega arith) f begun in
          let done =
            step_on writes reads n t lt s s (step_on writes reads n t lt s s looped wake_up)
              return in
          let reply : some (record {
            dev = record { byte = x.0; buff_len = x.1; havedata = true };
            ret = pos x.1;
            out = [];
          })
              ≡ some r =
            rw (write, f) at e in
          let same = some-injective _ _ reply in
          (
            done.last,
            done.run,
            done.dev_eq ∙ ap (λ q. q.dev) same,
            done.own ∙ ap (λ q. returned q.ret) same,
            done.others,
            done.readers,
          )
    ]

-- A writer of `xs` before its loop, where the array holds them and nothing faults, that goes on while the
-- others stand still: it returns their number; then the array has them at its start, whatever was
-- there unread, and else what it had, `buff_len` is their number, and there is data; and the others
-- are where they were.
pub alone_stores :
    (writes : ℕ → WriteCall) (reads : ℕ → ReadCall) (n t : ℕ) (s : System) (xs : List ℕ)
    → t < n
    → s.writer t ≡ starting
    → (writes t).buf ≡ holding xs
    → (writes t).size ≡ length xs
    → length xs ≤ length s.dev.byte
    → (w : System) × Run writes reads n s w
      × (w.writer t ≡ returned (pos (length xs)))
      × (w.dev ≡ loaded s.dev xs)
      × ((u : ℕ) → t ≢ u → w.writer u ≡ s.writer u)
      × (w.reader ≡ s.reader)
alone_stores writes reads n t s xs lt at b e fits =
    let stored = ap₂ (λ b k. write b s.dev k) b e ∙ (write-loaded s.dev xs true fits).0 in
    let (w, run, dev_eq, own, others, readers) = writer_alone writes reads n t s _ lt at stored in
    (w, run, own, dev_eq, others, readers)
