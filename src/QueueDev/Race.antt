-- ===== src/QueueDev/Race.antt =====
-- How many reads of 04-queue_wait/queue_wait_dev.c one write can serve.
use linux_dev_note.Common.{
  ℕ, zero, suc, ◌+◌, ◌≤◌, ◌<◌, ◌≡◌, refl, ap, ◌∙◌, Bool, true, false, List, some, arith, length,
  update, update-same, ap₂,
}
use linux_dev_note.Common.Int.{pos}
use linux_dev_note.Common.Bytes.{slice, length-blit, slice-blit}
use linux_dev_note.UserSpace.{UserBuffer, holding}
use linux_dev_note.QueueDev.{Dev, Reply, consume, attempt, write}
use linux_dev_note.QueueDev.Transfer.{loaded, write-loaded}
use linux_dev_note.QueueDev.Calls.{
  Call, Pc, testing, passed, System, Step, writer, pass, fail, sleep, wake, taking, Reach, start,
  later, returned,
}

-- the data that waits for a reader
abbrev pending : Bool → ℕ
pending true = 1
pending false = 0

-- The only reader is behind the loop only while there is data.
abbrev Ready : Pc → Bool → Type 0
Ready passed b = b ≡ true
Ready _ b = Unit {0}

record Inv (s : System) : Type 0 where
  counted : s.taken + pending s.dev.havedata ≤ s.writes
  ready : Ready (s.pc 0) s.dev.havedata

write-havedata :
    (buf : UserBuffer) (dev : Dev) (size : ℕ) (r : Reply)
    → write buf dev size ≡ some r
    → r.dev.havedata ≡ true
unfolding write
write-havedata buf dev size r e = ground arith

consume-havedata :
    (buf : UserBuffer) (dev : Dev) (size : ℕ) (r : Reply)
    → consume buf dev size ≡ some r
    → r.dev.havedata ≡ false
unfolding consume
consume-havedata buf dev size r e = ground arith

Step-Inv : {call : ℕ → Call} {s u : System} → Step 1 call s u → Inv s → Inv u
unfolding attempt
Step-Inv {s = s} (writer buf size r e) v = ground (arith, write-havedata buf s.dev size r e)
Step-Inv (pass zero lt e a) v = ground arith
Step-Inv (pass (suc t) lt e a) v = absurd (omega arith)
Step-Inv (fail zero x lt e a) v = ground arith
Step-Inv (fail (suc t) x lt e a) v = absurd (omega arith)
Step-Inv (sleep zero lt e a) v = ground arith
Step-Inv (sleep (suc t) lt e a) v = absurd (omega arith)
Step-Inv (wake zero lt e) v = ground arith
Step-Inv (wake (suc t) lt e) v = absurd (omega arith)
Step-Inv {call} {s} (taking zero r lt e c) v =
    ground (arith, consume-havedata (call 0).buf s.dev (call 0).size r c)
Step-Inv (taking (suc t) r lt e c) v = absurd (omega arith)

Reach-Inv :
    {call : ℕ → Call} {dev : Dev} {s : System} → dev.havedata ≡ false → Reach 1 call dev s → Inv s
Reach-Inv h start = ground arith
Reach-Inv h (later r st) = Step-Inv st (Reach-Inv h r)

-- From a device without data and with one reader, in every reachable state the reads that have got
-- data are at most the writes.
taken-le-writes :
    {call : ℕ → Call} {dev : Dev} {s : System}
    → dev.havedata ≡ false
    → Reach 1 call dev s
    → s.taken ≤ s.writes
taken-le-writes h r = omega (arith, (Reach-Inv h r).counted)

-- What the first reader finds in `buff_len`, and what the later ones do.
abbrev pub pending_length : List ℕ → ℕ → ℕ
pending_length xs zero = length xs
pending_length xs (suc m) = 0

-- Each of the first `m` readers has returned with the bytes `xs`: the first with their number as its
-- result, each later one with 0.
abbrev pub AllServed : List ℕ → ℕ → System → Type 0
AllServed xs zero s = Unit {0}
AllServed xs (suc m) s = (s.pc m ≡ returned (pos (pending_length xs m)) xs) × AllServed xs m s

-- `n` blocking reads of `size` bytes.
abbrev pub readers : UserBuffer → ℕ → ℕ → Call
readers buf size t = record { nonblock = false; buf = buf; size = size }

module _ (buf : UserBuffer) (dev : Dev) (xs : List ℕ) (n : ℕ) (fits : length xs ≤ length dev.byte)
    (ok : buf.uncopied (length xs) ≡ 0) where
  -- The first `m` readers are behind the loop, and nobody has taken anything.
  record Passing (m : ℕ) : Type 0 where
    last : System
    reach : Reach n (readers buf (length xs)) dev last
    dev_eq : last.dev ≡ loaded dev xs
    one : last.writes ≡ 1
    none_yet : last.taken ≡ 0
    behind : (t : ℕ) → t < m → last.pc t ≡ passed
    before : (t : ℕ) → m ≤ t → last.pc t ≡ testing

  pass_one : (m : ℕ) → m < n → Passing m → Passing (suc m)
  pass_one m h p = record {
    last = record p.last { pc = update p.last.pc m passed };
    reach = later p.reach (
        pass m h (p.before m (omega arith))
          (ap (attempt false) p.dev_eq ∙ (write-loaded dev xs false fits).1));
    dev_eq = p.dev_eq;
    one = p.one;
    none_yet = p.none_yet;
    behind = λ t lt. ground (arith, p.behind t);
    before = λ t le. ground (arith, p.before t);
  }

  passing : (m : ℕ) → m ≤ n → Passing m
  passing zero h = record {
    last = record { dev = loaded dev xs; pc = λ t. testing; writes = 1; taken = 0 };
    reach = later start (writer (holding xs) (length xs) _ (write-loaded dev xs false fits).0);
    dev_eq = refl;
    one = refl;
    none_yet = refl;
    behind = λ t lt. elim lt [ ];
    before = λ t le. refl;
  }
  passing (suc m) h = pass_one m h (passing m (omega arith))

  AllServed-update :
      (s : System) (m k : ℕ) (q : Pc) (d : Dev) (taken : ℕ)
      → k ≤ m
      → AllServed xs k s
      → AllServed xs k (record s { dev = d; pc = update s.pc m q; taken = taken })
  AllServed-update s m zero q d taken le a = tt
  AllServed-update s m (suc k) q d taken le a =
      (ground (arith, a.0), AllServed-update s m k q d taken (omega arith) a.1)

  -- The first `m` of them have taken the data.
  record Taking (m : ℕ) : Type 0 where
    last : System
    reach : Reach n (readers buf (length xs)) dev last
    room : length last.dev.byte ≡ length dev.byte
    one : last.writes ≡ 1
    taken_eq : last.taken ≡ m
    held : slice last.dev.byte 0 (length xs) ≡ xs
    left : last.dev.buff_len ≡ pending_length xs m
    served : AllServed xs m last
    behind : (t : ℕ) → m ≤ t → t < n → last.pc t ≡ passed

  consume-eq :
      (s : Dev)
      → length s.byte ≡ length dev.byte
      → consume buf s (length xs)
        ≡ some (record {
          dev = record { byte = s.byte; buff_len = 0; havedata = false };
          ret = pos s.buff_len;
          out = slice s.byte 0 (length xs);
        })
  unfolding consume
  consume-eq s e = ground arith

  take_one : (m : ℕ) → m < n → Taking m → Taking (suc m)
  take_one m h p = record {
    last = _;
    reach =
        later p.reach (taking m _ h (p.behind m (omega arith) h) (consume-eq p.last.dev p.room));
    room = p.room;
    one = p.one;
    taken_eq = ap suc p.taken_eq;
    held = p.held;
    left = refl;
    served = (
      update-same p.last.pc m _ ∙ ap₂ returned (ap pos p.left) p.held,
      AllServed-update p.last m m _ _ _ (omega arith) p.served,
    );
    behind = λ t le lt. ground (arith, p.behind t);
  }

  served_each : (m : ℕ) → m ≤ n → Taking m
  served_each zero h =
      let p = passing n (omega arith) in
      record {
        last = p.last;
        reach = p.reach;
        room = ap (λ d. length d.byte) p.dev_eq ∙ length-blit dev.byte 0 xs;
        one = p.one;
        taken_eq = p.none_yet;
        held =
            ap (λ d. slice d.byte 0 (length xs)) p.dev_eq ∙ slice-blit dev.byte 0 xs (omega arith);
        left = ap (λ d. d.buff_len) p.dev_eq;
        served = tt;
        behind = λ t le lt. p.behind t lt;
      }
  served_each (suc m) h = take_one m h (served_each m (omega arith))

-- For each `n`, one write that fits into the array can be taken by every one of `n` blocking
-- readers of its size whose copies do not fault, as they can all pass the test before the first of
-- them resets `havedata`: each gets the bytes of the write, the first with their number as its
-- result, and each later one with 0.
pub one_write_serves_all :
    (buf : UserBuffer) (dev : Dev) (xs : List ℕ) (n : ℕ)
    → length xs ≤ length dev.byte
    → buf.uncopied (length xs) ≡ 0
    → (s : System) × Reach n (readers buf (length xs)) dev s
      × (s.writes ≡ 1)
      × (s.taken ≡ n)
      × AllServed xs n s
one_write_serves_all buf dev xs n fits ok =
    let p = served_each buf dev xs n fits ok n (omega arith) in
    (p.last, p.reach, p.one, p.taken_eq, p.served)
