-- ===== src/IoTest/Single.antt =====
-- A reader of 03-fileOperate/fileOperate/RWTest/fileOperate_drv.c that no other disturbs: the steps of
-- IoTest/Calls.antt against the function of IoTest.antt.
use linux_dev_note.Common.{
  ℕ, ◌+◌, ◌-◌, ◌%◌, ◌^◌, ◌≤◌, ◌<◌, ◌≡◌, ◌≢◌, ap, sym, ◌∙◌, [], none, some, arith, length,
  ℕ_discrete, Option-cases, inl, inr, take, update, update-same, List, if◌then◌else◌, ◌==◌, min,
  dec_lt, true, false,
}
use linux_dev_note.Common.Int.{pos, minus, efault}
use linux_dev_note.Common.Bytes.{slice}
use linux_dev_note.UserSpace.{UserBuffer}
use linux_dev_note.IoTest.{Io, Reply, read, move_out}
use linux_dev_note.IoTest.Cat.{read_part, read_end}
use linux_dev_note.IoTest.Calls.{
  Call, testing, copying, copied, returned, System, chosen, moved_on, empty, choose, copy, fault,
  finish, Run, here, further, Pc,
}

read_none :
    (buf : UserBuffer) (s : Io) (size : ℕ) (r : Reply)
    → s.buff_len < 2 ^ 31
    → chosen s size ≡ none
    → read buf s size ≡ some r
    → r ≡ record { io = record s { postion = 0; buff_pos = 0 }; ret = pos 0; out = [] }
unfolding read
read_none buf s size r h e got = ground arith

-- What a read takes is not more than there is, and something.
record Chosen (buf : UserBuffer) (s : Io) (size k : ℕ) : Type 0 where
  some_of_it : 0 < k
  not_more : k ≤ s.buff_len
  moves : read buf s size ≡ move_out buf s size k

read_some :
    (buf : UserBuffer) (s : Io) (size k : ℕ)
    → s.buff_len < 2 ^ 31
    → 0 < size
    → chosen s size ≡ some k
    → Chosen buf s size k
unfolding read
read_some buf s size k h more e = record {
  some_of_it = ground arith;
  not_more = ground arith;
  moves = ground arith;
}

-- `move_out` where it is defined.
record Moved (buf : UserBuffer) (s : Io) (size k : ℕ) (r : Reply) : Type 0 where
  room : s.postion + k ≤ length s.byte
  whole :
      buf.uncopied k ≡ 0
      → r ≡ record {
        io = record s { postion = (s.postion + size) % 2 ^ 32; buff_len = s.buff_len - k };
        ret = pos k;
        out = slice s.byte s.postion k;
      }
  part :
      buf.uncopied k ≢ 0
      → r ≡ record {
        io = s;
        ret = minus efault;
        out = take (k - buf.uncopied k) (slice s.byte s.postion k);
      }

move_out-Moved :
    (buf : UserBuffer) (s : Io) (size k : ℕ) (r : Reply)
    → 0 < k
    → move_out buf s size k ≡ some r
    → Moved buf s size k r
unfolding move_out
move_out-Moved buf s size k r h e = record {
  room = ground arith;
  whole = λ z. ground arith;
  part = λ z. ground arith;
}

-- A run in which only `t` moves, to where it has returned `r`.
record Ran (n : ℕ) (call : ℕ → Call) (t : ℕ) (s : System) (r : Reply) : Type 0 where
  pub last : System
  pub run : Run n call s last
  pub dev_eq : last.dev ≡ r.io
  pub own : last.pc t ≡ returned r.ret r.out
  pub others : (u : ℕ) → u ≢ t → last.pc u ≡ s.pc u

module _ (n : ℕ) (call : ℕ → Call) (t : ℕ) (s : System) (lt : t < n) (at : s.pc t ≡ testing)
    (small : s.dev.buff_len < 2 ^ 31) (more : 0 < (call t).size) where
  run_none :
      (r : Reply)
      → chosen s.dev (call t).size ≡ none
      → read (call t).buf s.dev (call t).size ≡ some r
      → Ran n call t s r
  run_none r e got =
      let r_eq = read_none (call t).buf s.dev (call t).size r small e got in
      record {
        last = record {
          dev = record s.dev { postion = 0; buff_pos = 0 };
          pc = update s.pc t (returned (pos 0) []);
        };
        run = further here (empty t lt at e);
        dev_eq = ap (λ q. q.io) (sym r_eq);
        own = update-same s.pc t _ ∙ ap (λ q. returned q.ret q.out) (sym r_eq);
        others = λ u ne. ground arith;
      }

  module _ (k : ℕ) (e : chosen s.dev (call t).size ≡ some k) (r : Reply)
      (m : Moved (call t).buf s.dev (call t).size k r) where
    -- what the user gets where the copy does not fault
    abbrev part_read : List ℕ
    part_read = slice s.dev.byte s.dev.postion k

    run_whole : k ≤ s.dev.buff_len → (call t).buf.uncopied k ≡ 0 → Ran n call t s r
    run_whole not_more z =
        let pc : ℕ → Pc = update (update s.pc t (copying k)) t (copied k part_read) in
        let left : (s.dev.buff_len + (2 ^ 32 - k % 2 ^ 32)) % 2 ^ 32 ≡ s.dev.buff_len - k =
          omega arith in
        record {
          last = record {
            dev = moved_on s.dev (call t).size k;
            pc = update pc t (returned (pos k) part_read);
          };
          run =
              further
                (further (further here (choose t k lt at e)) (copy t k lt (ground arith) m.room z))
                (finish t k _ lt (ground arith));
          dev_eq =
              ap
                (λ l. record s.dev {
                  postion = (s.dev.postion + (call t).size) % 2 ^ 32;
                  buff_len = l;
                })
                left
              ∙ ap (λ q. q.io) (sym (m.whole z));
          own = update-same pc t _ ∙ ap (λ q. returned q.ret q.out) (sym (m.whole z));
          others = λ u ne. ground arith;
        }

    run_fault : (call t).buf.uncopied k ≢ 0 → Ran n call t s r
    run_fault nz = record {
      last = record {
        dev = s.dev;
        pc =
            update (update s.pc t (copying k)) t
              (returned (minus efault) (take (k - (call t).buf.uncopied k) part_read));
      };
      run = further (further here (choose t k lt at e)) (fault t k lt (ground arith) m.room nz);
      dev_eq = ap (λ q. q.io) (sym (m.part nz));
      own =
          update-same (update s.pc t (copying k)) t _
          ∙ ap (λ q. returned q.ret q.out) (sym (m.part nz));
      others = λ u ne. ground arith;
    }

  run_some :
      (r : Reply) (k : ℕ)
      → chosen s.dev (call t).size ≡ some k
      → read (call t).buf s.dev (call t).size ≡ some r
      → Ran n call t s r
  run_some r k e got =
      let c = read_some (call t).buf s.dev (call t).size k small more e in
      let m =
        move_out-Moved (call t).buf s.dev (call t).size k r c.some_of_it (sym c.moves ∙ got) in
      elim (ℕ_discrete ((call t).buf.uncopied k) 0) [
        | yes z ↦ run_whole k e r m c.not_more z
        | no nz ↦ run_fault k e r m nz
      ]

-- A reader at its test, which asks for a byte or more and finds `buff_len` not below 0, can go on while
-- the others stand still, and then does what the function `read` says, where that is defined: it returns
-- the same result and the same bytes, and leaves the globals as `read` does, and the other readers
-- where they were.
run_alone :
    (n : ℕ) (call : ℕ → Call) (t : ℕ) (s : System) (r : Reply)
    → t < n
    → s.pc t ≡ testing
    → s.dev.buff_len < 2 ^ 31
    → 0 < (call t).size
    → read (call t).buf s.dev (call t).size ≡ some r
    → (w : System) × Run n call s w
      × (w.dev ≡ r.io)
      × (w.pc t ≡ returned r.ret r.out)
      × ((u : ℕ) → u ≢ t → w.pc u ≡ s.pc u)
run_alone n call t s r lt at small more got =
    let ran : Ran n call t s r = elim (Option-cases (chosen s.dev (call t).size)) [
      | inl e ↦ run_none n call t s lt at small more r e got
      | inr (k, e) ↦ run_some n call t s lt at small more r k e got
    ] in
    (ran.last, ran.run, ran.dev_eq, ran.own, ran.others)

-- What `read` comes to, on both of its branches.
read_whole :
    (buf : UserBuffer) (s : Io) (size : ℕ)
    → 0 < size
    → s.postion + min size s.buff_len ≤ length s.byte
    → buf.uncopied (min size s.buff_len) ≡ 0
    → let k = min size s.buff_len in
      read buf s size
      ≡ some (record {
        io =
            if s.buff_len == 0
            then record s { postion = 0; buff_pos = 0 }
            else record s { postion = (s.postion + size) % 2 ^ 32; buff_len = s.buff_len - k };
        ret = pos k;
        out = slice s.byte s.postion k;
      })
read_whole buf s size more fit ok = elim (dec_lt 0 s.buff_len) [
  | yes h ↦
      let test : (s.buff_len == 0) ≡ false = ground arith in
      rw test (read_part buf s size ok more h fit)
  | no h ↦
      let nothing : s.buff_len ≡ 0 = omega arith in
      let test : (s.buff_len == 0) ≡ true = ground arith in
      let k : min size s.buff_len ≡ 0 = omega arith in
      rw (test, k) (read_end buf s size more nothing)
]

-- A reader at its test, which asks for a byte or more, finds `buff_len` not below 0, and has what it
-- takes inside the array and a buffer that does not fault, can go on while the others stand still: it
-- gets the next bytes of the array, as many as it asks for and there are, and returns their number;
-- `buff_len` goes down by it and `postion` on by the size asked for, or, where there was nothing,
-- both positions are set back; and the other readers are where they were.
pub alone_reads :
    (n : ℕ) (call : ℕ → Call) (t : ℕ) (s : System)
    → t < n
    → s.pc t ≡ testing
    → s.dev.buff_len < 2 ^ 31
    → 0 < (call t).size
    → s.dev.postion + min (call t).size s.dev.buff_len ≤ length s.dev.byte
    → (call t).buf.uncopied (min (call t).size s.dev.buff_len) ≡ 0
    → let k = min (call t).size s.dev.buff_len in
      (w : System) × Run n call s w
      × (w.pc t ≡ returned (pos k) (slice s.dev.byte s.dev.postion k))
      × (w.dev ≡ (
          if s.dev.buff_len == 0 then record s.dev { postion = 0; buff_pos = 0 } else record s.dev {
            postion = (s.dev.postion + (call t).size) % 2 ^ 32;
            buff_len = s.dev.buff_len - k;
          }))
      × ((u : ℕ) → u ≢ t → w.pc u ≡ s.pc u)
alone_reads n call t s lt at small more fit ok =
    let (w, run, dev_eq, own, others) =
      run_alone n call t s _ lt at small more
        (read_whole (call t).buf s.dev (call t).size more fit ok) in
    (w, run, own, dev_eq, others)
