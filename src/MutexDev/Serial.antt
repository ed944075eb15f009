-- ===== src/MutexDev/Serial.antt =====
-- The interleaved calls of MutexDev/Locked.antt against the same calls made one after another.
use linux_dev_note.Common.{
  ℕ, suc, ◌≤◌, ◌<◌, ◌≡◌, refl, ◌∙◌, sym, ◌≢◌, true, false, List, [], ◌∷◌, arith,
}
use linux_dev_note.MutexDev.{mem_size, copy_byte, copy_in}
use linux_dev_note.MutexDev.Threads.{Job, copying, reading, skipped, wrote, System, critical}
use linux_dev_note.MutexDev.Locked.{
  count_of, Step, skip, lock_write, copy, unlock_write, lock_read, unlock_read, Reach, start, later,
}
use Prim.Native.Nat.add
use linux_dev_note.MutexDev.Order.{
  copy_in-suc, write-eq-copy_in, commit, Saw, Counts, Phase, free, held_write, held_read, Inv,
  Saw-update, Saw-update_got, Saw-cons, owner_unique,
}

module _ (job : ℕ → Job) (initial : List ℕ) where
  mem-reading :
      (order : List ℕ) (s : System) (t : ℕ)
      → Phase job initial order s
      → s.pc t ≡ reading
      → s.mem ≡ commit job initial order
  mem-reading order s t (free l m q) e = m
  mem-reading order s t (held_write o j l at le ins m q) e = absurd (ground (arith, q t))
  mem-reading order s t (held_read o l at m q) e = m

  unlocked :
      {order : List ℕ} {s : System}
      → Phase job initial order s
      → s.locked ≡ false
      → s.mem ≡ commit job initial order
  unlocked (free l m q) f = m
  unlocked (held_write o j l at le ins m q) f = absurd (cc)
  unlocked (held_read o l at m q) f = m

  started :
      (order : List ℕ) (t : ℕ)
      → commit job initial order ≡ copy_in (job t).buff (job t).p 0 0 (commit job initial order)
  unfolding copy_in
  started order t = refl

  -- One more round of the owner's loop.
  held-copy :
      (order : List ℕ) (s : System) (t i o j : ℕ)
      → s.pc t ≡ copying i
      → s.pc o ≡ copying j
      → t ≡ o
      → s.mem ≡ copy_in (job o).buff (job o).p 0 j (commit job initial order)
      → copy_byte (job t).buff s.mem (job t).p i
        ≡ copy_in (job t).buff (job t).p 0 (suc i) (commit job initial order)
  held-copy order s t i o j e at same m =
      let j_eq : i ≡ j = ground arith in
      let m' : s.mem ≡ copy_in (job t).buff (job t).p 0 i (commit job initial order) =
        ground arith in
      rw (copy_in-suc (job t).buff (job t).p 0 i (commit job initial order), m', add.zero)

  -- The owner has gone through its loop.
  held-finish :
      (order : List ℕ) (s : System) (t i o j : ℕ)
      → s.pc t ≡ copying i
      → s.pc o ≡ copying j
      → t ≡ o
      → count_of job t ≤ i
      → j ≤ count_of job o
      → (job o).p < mem_size
      → s.mem ≡ copy_in (job o).buff (job o).p 0 j (commit job initial order)
      → s.mem ≡ commit job initial (t ∷ order)
  unfolding commit
  held-finish order s t i o j e at same h le ins m = ground (
    arith,
    write-eq-copy_in (job t).buff (record { mem = commit job initial order; writecount = 0 })
        (job t).cnt (job t).p,
  )

  -- A call is entered in the order when it gives the mutex back with its bytes written.
  abbrev order_after : {s u : System} → Step job s u → List ℕ → List ℕ
  order_after (unlock_write t i e h) order = t ∷ order
  order_after _ order = order

  Step-Phase :
      {s u : System} (st : Step job s u) (order : List ℕ)
      → Phase job initial order s
      → Phase job initial (order_after st order) u
  Step-Phase (skip t e h) order (free l m q) = free l m (λ u. ground (arith, q u))
  Step-Phase (skip t e h) order (held_write o i l at le inside m q) =
      held_write o i l (ground arith) le inside m (λ u ne. ground (arith, q u))
  Step-Phase (skip t e h) order (held_read o l at m q) =
      held_read o l (ground arith) m (λ u ne. ground (arith, q u))
  Step-Phase (lock_write t e wr inside fr) order (free l m q) =
      held_write t 0 refl (ground arith) (omega arith) inside (m ∙ started order t)
        (λ u ne. ground (arith, q u))
  Step-Phase (lock_write t e wr inside fr) order (held_write o i l at le ins m q) = absurd (cc)
  Step-Phase (lock_write t e wr inside fr) order (held_read o l at m q) = absurd (cc)
  Step-Phase (copy t i e h) order (free l m q) = absurd (ground (arith, q t))
  Step-Phase {s} (copy t i e h) order (held_write o j l at le ins m q) =
      let same = owner_unique job initial s.pc o t q in
      held_write t (suc i) l (ground arith) (omega arith) (ground (arith, same))
        (held-copy order s t i o j e at (same (ground arith)) m) (λ u ne. ground (arith, q u, same))
  Step-Phase (copy t i e h) order (held_read o l at m q) = absurd (ground (arith, q t))
  Step-Phase (unlock_write t i e h) order (free l m q) = absurd (ground (arith, q t))
  Step-Phase {s} (unlock_write t i e h) order (held_write o j l at le ins m q) =
      let same = owner_unique job initial s.pc o t q in
      free refl (held-finish order s t i o j e at (same (ground arith)) h le ins m)
        (λ u. ground (arith, q u, same))
  Step-Phase (unlock_write t i e h) order (held_read o l at m q) = absurd (ground (arith, q t))
  Step-Phase (lock_read t e wr inside fr) order (free l m q) =
      held_read t refl (ground arith) m (λ u ne. ground (arith, q u))
  Step-Phase (lock_read t e wr inside fr) order (held_write o i l at le ins m q) = absurd (cc)
  Step-Phase (lock_read t e wr inside fr) order (held_read o l at m q) = absurd (cc)
  Step-Phase (unlock_read t e) order (free l m q) = absurd (ground (arith, q t))
  Step-Phase (unlock_read t e) order (held_write o j l at le ins m q) = absurd (ground (arith, q t))
  Step-Phase {s} (unlock_read t e) order (held_read o l at m q) =
      free refl m (λ u. ground (arith, q u, owner_unique job initial s.pc o t q))

  Step-Counts :
      {s u : System} (st : Step job s u) (order : List ℕ)
      → Counts job initial order s.pc
      → Counts job initial (order_after st order) u.pc
  Step-Counts (unlock_write t i e h) order c u = ground (arith, c u, c t)
  Step-Counts (skip t e h) order c u = ground (arith, c u)
  Step-Counts (lock_write t e wr inside fr) order c u = ground (arith, c u)
  Step-Counts (copy t i e h) order c u = ground (arith, c u)
  Step-Counts (lock_read t e wr inside fr) order c u = ground (arith, c u)
  Step-Counts (unlock_read t e) order c u = ground (arith, c u)

  Step-Saw :
      {s u : System} (st : Step job s u) (order : List ℕ)
      → Phase job initial order s
      → Saw job initial order s.pc
      → Saw job initial (order_after st order) u.pc
  Step-Saw {s} (skip t e h) order p saw = Saw-update job initial order s.pc t skipped refl saw
  Step-Saw {s} (lock_write t e wr inside fr) order p saw =
      Saw-update job initial order s.pc t (copying 0) refl saw
  Step-Saw {s} (copy t i e h) order p saw =
      Saw-update job initial order s.pc t (copying (suc i)) refl saw
  Step-Saw {s} (unlock_write t i e h) order p saw =
      Saw-cons job initial order _ t (Saw-update job initial order s.pc t wrote refl saw)
  Step-Saw {s} (lock_read t e wr inside fr) order p saw =
      Saw-update job initial order s.pc t reading refl saw
  Step-Saw {s} (unlock_read t e) order p saw =
      Saw-update_got job initial order s.pc t s.mem (mem-reading order s t p e) saw

  Step-Inv : {s u : System} → Step job s u → Inv job initial s → Inv job initial u
  Step-Inv st v = record {
    order = order_after st v.order;
    phase = Step-Phase st v.order v.phase;
    counts = Step-Counts st v.order v.counts;
    saw = Step-Saw st v.order v.phase v.saw;
  }

  pub Reach-Inv : {s : System} → Reach job initial s → Inv job initial s
  unfolding commit
  Reach-Inv start = record {
    order = [];
    phase = free refl refl (λ u. refl);
    counts = λ u. refl;
    saw = λ u out e. absurd (cc);
  }
  Reach-Inv (later r st) = Step-Inv st (Reach-Inv r)

  -- In every reachable state at most one thread is between mutex_lock and mutex_unlock.
  pub mutual_exclusion :
      {s : System} (t u : ℕ)
      → Reach job initial s
      → t ≢ u
      → critical (s.pc t) ≡ true
      → critical (s.pc u) ≡ false
  mutual_exclusion {s} t u r ne c = elim (Reach-Inv r).phase [
    | free l m q ↦ q u
    | held_write o i l at le ins m q ↦ q u (λ e. ne (owner_unique job initial s.pc o t q c ∙ sym e))
    | held_read o l at m q ↦ q u (λ e. ne (owner_unique job initial s.pc o t q c ∙ sym e))
  ]

  -- In every reachable state where the mutex is free, the memory is what the finished calls of
  -- `_write`, each once and whole, leave one after another in some order; and every finished
  -- `_read` got what it returns after the first ones of that order.
  pub serializable :
      {s : System}
      → Reach job initial s
      → s.locked ≡ false
      → (order : List ℕ) × (s.mem ≡ commit job initial order)
        × Counts job initial order s.pc
        × Saw job initial order s.pc
  serializable r f = let v = Reach-Inv r in (v.order, unlocked v.phase f, v.counts, v.saw)
