-- ===== src/MutexDev/Torn.antt =====
-- Two writes and a read of one region in the driver of MutexDev/Unlocked.antt.
use linux_dev_note.Common.{
  ℕ, zero, suc, ◌+◌, ◌-◌, ◌≤◌, ◌<◌, ◌≡◌, refl, ◌∙◌, ap, ap₂, ◌≢◌, true, false, List, [], ◌++◌,
  arith, length, take, drop, update,
}
use linux_dev_note.Common.Bytes.{slice}
use linux_dev_note.UserSpace.{holding}
use linux_dev_note.MutexDev.{mem_size, clamp_count, copy_byte, copy_in}
use linux_dev_note.MutexDev.Transfer.{clamp_count-eq-min, read_lem}
use linux_dev_note.MutexDev.Threads.{Job, Pc, entering, copying, wrote, got, System, fresh}
use linux_dev_note.MutexDev.Locked.{count_of, shown}
use linux_dev_note.MutexDev.Unlocked.{begin_write, copy, end_write, read, Reach, start, later}
use linux_dev_note.MutexDev.Mixture.{loops_mixture}

module _ (job : ℕ → Job) (initial : List ℕ) where
  -- What a run of thread `t` alone leads to.
  record Alone (s : System) (t : ℕ) (x : Pc) (mem : List ℕ) : Type 0 where
    last : System
    reach : Reach job initial last
    mem_eq : last.mem ≡ mem
    own : last.pc t ≡ x
    others : (u : ℕ) → u ≢ t → last.pc u ≡ s.pc u

  advance :
      (n i t : ℕ) (s : System)
      → Reach job initial s
      → s.pc t ≡ copying i
      → i + n ≤ count_of job t
      → Alone s t (copying (i + n)) (copy_in (job t).buff (job t).p i n s.mem)
  unfolding copy_in
  advance zero i t s r e h = record {
    last = s;
    reach = r;
    mem_eq = refl;
    own = e ∙ ap copying (omega arith);
    others = λ u ne. refl;
  }
  advance (suc n) i t s r e h =
      let on =
        advance n (suc i) t
          (record s {
            mem = copy_byte (job t).buff s.mem (job t).p i;
            pc = update s.pc t (copying (suc i));
          })
          (later r (copy t i e (omega arith))) (ground arith) (omega arith) in
      record {
        last = on.last;
        reach = on.reach;
        mem_eq = on.mem_eq;
        own = on.own ∙ ap copying (omega arith);
        others = λ u ne. on.others u ne ∙ ground arith;
      }

-- Two calls of `_write` at the position `p`, from buffers that hold `xs` and `ys`, and calls of
-- `_read` of as many bytes there.
abbrev pub rivals : List ℕ → List ℕ → ℕ → ℕ → Job
rivals xs ys p zero = record { writes = true; buff = holding xs; cnt = length xs; p = p }
rivals xs ys p (suc zero) = record { writes = true; buff = holding ys; cnt = length ys; p = p }
rivals xs ys p (suc (suc t)) = record { writes = false; buff = holding []; cnt = length xs; p = p }

module _ (mem xs ys : List ℕ) (p k : ℕ) (full : length mem ≡ mem_size)
    (same : length xs ≡ length ys) (fits : p + length xs ≤ mem_size) (inside : p < mem_size)
    (h : k ≤ length xs) where
  -- Both calls are in their loops, before the first round.
  begun : System
  begun = record {
    mem = mem;
    locked = false;
    pc = update (update (fresh mem).pc 0 (copying 0)) 1 (copying 0);
  }

  begun-Reach : Reach (rivals xs ys p) mem begun
  unfolding begun
  begun-Reach =
      later (later start (begin_write 0 refl refl inside)) (begin_write 1 refl refl inside)

  whole : (n : ℕ) → p + n ≤ mem_size → clamp_count p n ≡ n
  whole n f = clamp_count-eq-min p n inside (omega arith) ∙ omega arith

  abbrev Outcome : Type 0
  Outcome =
      (s : System) × Reach (rivals xs ys p) mem s
      × (s.pc 0 ≡ wrote)
      × (s.pc 1 ≡ wrote)
      × (slice s.mem p (length xs) ≡ take k ys ++ drop k xs)
      × (s.pc 2 ≡ entering)

  module _
      (a : Alone
        (rivals xs ys p)
        mem
        begun
        0
        (copying (0 + k))
        (copy_in (holding xs) p 0 k begun.mem))
      (b : Alone
        (rivals xs ys p)
        mem
        a.last
        1
        (copying (0 + length ys))
        (copy_in (holding ys) p 0 (length ys) a.last.mem)) where
    ended :
        Alone
          (rivals xs ys p)
          mem
          b.last
          0
          (copying (0 + k + (length xs - k)))
          (copy_in (holding xs) p (0 + k) (length xs - k) b.last.mem)
        → Outcome
    unfolding begun
    ended c = (
      _,
      later
          (later c.reach
            (end_write 0 (0 + k + (length xs - k)) c.own (omega (arith, whole (length xs) fits))))
          (end_write 1 (0 + length ys) (c.others 1 (omega arith) ∙ b.own)
            (omega (arith, whole (length ys) (omega arith)))),
      refl,
      refl,
      ap (λ l. slice l p (length xs)) (c.mem_eq ∙ pieces)
          ∙ loops_mixture mem xs ys p k (length xs - k) same (omega arith) (omega arith),
      c.others 2 (omega arith) ∙ b.others 2 (omega arith) ∙ a.others 2 (omega arith),
    )
      where
        seen : b.last.mem ≡ copy_in (holding ys) p 0 (length ys) (copy_in (holding xs) p 0 k mem)
        seen = b.mem_eq ∙ ap (copy_in (holding ys) p 0 (length ys)) a.mem_eq

        pieces :
            copy_in (holding xs) p (0 + k) (length xs - k) b.last.mem
            ≡ copy_in
                (holding xs)
                p
                k
                (length xs - k)
                (copy_in (holding ys) p 0 (length ys) (copy_in (holding xs) p 0 k mem))
        pieces = ap₂ (λ q l. copy_in (holding xs) p q (length xs - k) l) (omega arith) seen

    second : Outcome
    second = ended (
        advance (rivals xs ys p) mem (length xs - k) (0 + k) 0 b.last b.reach
          (b.others 0 (omega arith) ∙ a.own) (omega (arith, whole (length xs) fits)))

  outcome : Outcome
  unfolding begun
  outcome = first (
      advance (rivals xs ys p) mem k 0 0 begun begun-Reach refl
        (omega (arith, whole (length xs) fits)))
    where
      first :
          Alone
            (rivals xs ys p)
            mem
            begun
            0
            (copying (0 + k))
            (copy_in (holding xs) p 0 k begun.mem)
          → Outcome
      first a = second a (
          advance (rivals xs ys p) mem (length ys) 0 1 a.last a.reach (a.others 1 (omega arith))
            (omega (arith, whole (length ys) (omega arith))))

-- Without the mutex: whenever two writes of the same length `n` go to one region inside a memory
-- of MEM_SIZE bytes, not at its end, then for every `k` up to `n` the threads can run so that both
-- return and the region holds the first `k` bytes of the second and then the last `n - k` of the
-- first.
torn_write :
    (mem xs ys : List ℕ) (p k : ℕ)
    → length mem ≡ mem_size
    → length xs ≡ length ys
    → p + length xs ≤ mem_size
    → p < mem_size
    → k ≤ length xs
    → (s : System) × Reach (rivals xs ys p) mem s
      × (s.pc 0 ≡ wrote)
      × (s.pc 1 ≡ wrote)
      × (slice s.mem p (length xs) ≡ take k ys ++ drop k xs)
torn_write mem xs ys p k full same fits inside h =
    let (s, run, first, second, torn, third) = outcome mem xs ys p k full same fits inside h in
    (s, run, first, second, torn)

-- Without the mutex, and whenever two writes and a read of the same length `n` go to one region
-- inside a memory of MEM_SIZE bytes, not at its end: for every `k` up to `n` the read can get the
-- first `k` bytes of the second write and then the last `n - k` of the first.
pub torn_read :
    (mem xs ys : List ℕ) (p k : ℕ)
    → length mem ≡ mem_size
    → length xs ≡ length ys
    → p + length xs ≤ mem_size
    → p < mem_size
    → k ≤ length xs
    → (s : System) × Reach (rivals xs ys p) mem s × (s.pc 2 ≡ got (take k ys ++ drop k xs))
torn_read mem xs ys p k full same fits inside h =
    let (s, run, first, second, torn, third) = outcome mem xs ys p k full same fits inside h in
    (_, later run (read 2 third refl inside), ap got (seen s.mem ∙ torn))
  where
    seen : (m : List ℕ) → shown (rivals xs ys p) 2 m ≡ slice m p (length xs)
    seen m =
        ap (λ r. r.out)
          (read_lem (holding []) (record { mem = m; writecount = 0 }) (length xs) p (omega arith)
            (omega arith) refl)
        ∙ ap (slice m p) (omega arith)
