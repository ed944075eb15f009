-- ===== src/IoTest/Rounds.antt =====
-- The writer of IoTest/Mixed.antt when the readers stand still: its loop, and its whole call against the
-- function of IoTest.antt.
use linux_dev_note.Common.{
  ℕ, zero, suc, ◌+◌, ◌%◌, ◌^◌, ◌<◌, ◌≡◌, refl, subst, List, some, none, [], arith, length, set,
  get_or, ltb, Bool-cases, Option-cases, inl, inr, ltb→lt,
}
use mathlib.Core.Option.{some-injective}
use linux_dev_note.Common.Int.{pos}
use linux_dev_note.CopyLoop.{store_loop}
use linux_dev_note.IoTest.{Reply, write}
use linux_dev_note.IoTest.Calls.{Call}
use linux_dev_note.IoTest.Mixed.{
  WriterPc, starting, at_test, behind_loop, written, start, enter, leave, store, fault, count,
  finish, System, writer_moves, Run, here, further,
}

module _ (n : ℕ) (w : Call) (call : ℕ → Call) (from : System) (front end : ℕ) where
  -- The globals and the writer somewhere in its call.
  abbrev At : List ℕ → ℕ → WriterPc → Type 0
  At byte k q = Run n w call from (record {
    dev = record { postion = front; byte = byte; buff_len = k; buff_pos = end };
    writer = q;
    readers = from.readers;
  })

  -- One round: the byte `v` is stored.
  one_round :
      (i k v : ℕ) (byte : List ℕ)
      → k < end + w.size
      → k < length byte
      → end + w.size < 2 ^ 31
      → w.buf.fetch i ≡ some v
      → At byte k (at_test i)
      → At (set byte k v) (suc k) (at_test (suc i))
  one_round i k v byte more room small e run =
      subst (λ j. At (set byte k v) j (at_test (suc i))) {x = (k + 1) % 2 ^ 32} {y = suc k}
        (omega arith)
        (further
          (further (further run (writer_moves _ _ _ refl (enter i (ground arith))))
            (writer_moves _ _ _ refl (store i v room e)))
          (writer_moves _ _ _ refl (count (suc i))))

  ends :
      (byte : List ℕ) (k : ℕ) (r : List ℕ × ℕ)
      → some (byte, k) ≡ some r
      → At byte k behind_loop
      → At r.0 r.1 behind_loop
  ends byte k r e = subst (λ (x : List ℕ × ℕ). At x.0 x.1 behind_loop) (some-injective _ _ e)

  -- The whole loop.
  loop_run :
      (m i k : ℕ) (byte : List ℕ) (r : List ℕ × ℕ)
      → k + m ≡ end + w.size
      → end + w.size < 2 ^ 31
      → store_loop w.buf i m byte k ≡ some r
      → At byte k (at_test i)
      → At r.0 r.1 behind_loop
  unfolding store_loop
  loop_run zero i k byte r all small e run =
      ends byte k r e (further run (writer_moves _ _ _ refl (leave i (ground arith))))
  loop_run (suc m) i k byte r all small e run = elim (Bool-cases (ltb k (length byte))) [
    | inl f ↦
        let room = ltb→lt k (length byte) f in
        elim (Option-cases (w.buf.fetch i)) [
          | inr (v, g) ↦
              let rest : store_loop w.buf (suc i) m (set byte k v) (suc k) ≡ some r =
                rw (store_loop, f, g) at e in
              loop_run m (suc i) (suc k) (set byte k v) r (omega arith) small rest
                (one_round i k v byte (omega arith) room small g run)
          | inl g ↦
              let stopped : some (set byte k (w.buf.fault_fill (get_or byte k 0)), k) ≡ some r =
                rw (store_loop, f, g) at e in
              ends (set byte k (w.buf.fault_fill (get_or byte k 0))) k r stopped (
                further (further run (writer_moves _ _ _ refl (enter i (ground arith))))
                  (writer_moves _ _ _ refl (fault i room g)))
        ]
    | inr f ↦ let refused : none ≡ some r = rw (store_loop, f) at e in ground arith
  ]

-- A writer before its loop that goes on while the readers stand still does what the function `write`
-- says, where that is defined and the loop ends below 2^31: it returns the same result, and leaves the
-- globals as `write` does and the readers where they were.
write_alone :
    (n : ℕ) (w : Call) (call : ℕ → Call) (s : System) (r : Reply)
    → s.writer ≡ starting
    → s.dev.buff_pos + w.size < 2 ^ 31
    → write w.buf s.dev w.size ≡ some r
    → Run n w call s (record { dev = r.io; writer = written r.ret; readers = s.readers })
unfolding write
write_alone n w call s r at small e =
    let d = s.dev in
    elim (Option-cases (store_loop w.buf 0 w.size d.byte d.buff_pos)) [
      | inl f ↦ let nothing : none ≡ some r = rw (write, f) at e in ground arith
      | inr (x, f) ↦
          let looped =
            loop_run n w call s d.postion d.buff_pos w.size 0 d.buff_pos d.byte x refl small f
              (further here (writer_moves starting _ _ at start)) in
          let reply : some (record {
            io = record d { byte = x.0; buff_len = x.1; buff_pos = x.1 };
            ret = pos w.size;
            out = [];
          })
              ≡ some r =
            rw (write, f) at e in
          subst
            (λ (q : Reply).
              Run n w call s (record { dev = q.io; writer = written q.ret; readers = s.readers }))
            (some-injective _ _ reply) (further looped (writer_moves _ _ _ refl finish))
    ]
