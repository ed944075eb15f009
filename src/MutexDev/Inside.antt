-- ===== src/MutexDev/Inside.antt =====
-- Where the copy loop of `_write` stores, in both drivers (03-fileOperate/mutex/useMutex/mutex_drv.c and
-- unuseMutex/mutex_drv.c) and for every interleaving. In the model a store behind the memory, which is
-- undefined in C, changes nothing.
use linux_dev_note.Common.{
  ℕ, suc, ◌+◌, ◌<◌, ◌≡◌, refl, subst, ◌∙◌, List, [], ◌∷◌, length, arith, get_or, set, length-set,
  ◌⊎◌, inl, inr, update, update-same, update-other, ℕ_discrete, zero,
}
use linux_dev_note.UserSpace.{UserBuffer}
use linux_dev_note.MutexDev.{mem_size, clamp_count, fetched, copy_byte}
use linux_dev_note.MutexDev.Threads.{Job, Pc, copying, reading, skipped, wrote, got, System}
use linux_dev_note.MutexDev.Locked
use linux_dev_note.MutexDev.Locked.{count_of}
use linux_dev_note.MutexDev.Unlocked

-- Only a call at a position inside the memory gets to the loop.
abbrev Began : ℕ → Pc → Type 0
Began p (copying i) = p < mem_size
Began p _ = Unit {0}

length-copy_byte :
    (b : UserBuffer) (mem : List ℕ) (p i : ℕ) → length (copy_byte b mem p i) ≡ length mem
unfolding copy_byte
length-copy_byte b mem p i = length-set mem (p + i) _

get_or-set_here : (xs : List ℕ) (i v : ℕ) → i < length xs → get_or (set xs i v) i 0 ≡ v
get_or-set_here [] i v h = absurd (omega arith)
get_or-set_here (x ∷ xs) zero v h = refl
get_or-set_here (x ∷ xs) (suc i) v h = get_or-set_here xs i v (omega arith)

module _ (job : ℕ → Job) where
  record Inv (mem : List ℕ) (s : System) : Type 0 where
    began : (t : ℕ) → Began (job t).p (s.pc t)
    same_length : length s.mem ≡ length mem

  move :
      (pc : ℕ → Pc) (t : ℕ) (q : Pc)
      → Began (job t).p q
      → ((u : ℕ) → Began (job u).p (pc u))
      → (u : ℕ) → Began (job u).p (update pc t q u)
  move pc t q b all u = elim (ℕ_discrete t u) [
    | yes e ↦ subst (λ w. Began (job w).p (update pc t q w)) e (rw (update-same pc t q) b)
    | no ne ↦ rw (update-other pc t u q ne) (all u)
  ]

  locked-Inv : {mem : List ℕ} {s : System} → Locked.Reach job mem s → Inv mem s
  locked-Inv Locked.start = record { began = λ t. tt; same_length = refl }
  locked-Inv (Locked.later {s} r (Locked.skip t e h)) =
      let v = locked-Inv r in
      record { began = move s.pc t skipped tt v.began; same_length = v.same_length }
  locked-Inv (Locked.later {s} r (Locked.lock_write t e w h f)) =
      let v = locked-Inv r in
      record { began = move s.pc t (copying 0) h v.began; same_length = v.same_length }
  locked-Inv (Locked.later {s} r (Locked.copy t i e h)) =
      let v = locked-Inv r in
      record {
        began = move s.pc t (copying (suc i)) (subst (Began (job t).p) e (v.began t)) v.began;
        same_length = length-copy_byte (job t).buff s.mem (job t).p i ∙ v.same_length;
      }
  locked-Inv (Locked.later {s} r (Locked.unlock_write t i e h)) =
      let v = locked-Inv r in
      record { began = move s.pc t wrote tt v.began; same_length = v.same_length }
  locked-Inv (Locked.later {s} r (Locked.lock_read t e w h f)) =
      let v = locked-Inv r in
      record { began = move s.pc t reading tt v.began; same_length = v.same_length }
  locked-Inv (Locked.later {s} r (Locked.unlock_read t e)) =
      let v = locked-Inv r in
      record { began = move s.pc t (got _) tt v.began; same_length = v.same_length }

  unlocked-Inv : {mem : List ℕ} {s : System} → Unlocked.Reach job mem s → Inv mem s
  unlocked-Inv Unlocked.start = record { began = λ t. tt; same_length = refl }
  unlocked-Inv (Unlocked.later {s} r (Unlocked.skip t e h)) =
      let v = unlocked-Inv r in
      record { began = move s.pc t skipped tt v.began; same_length = v.same_length }
  unlocked-Inv (Unlocked.later {s} r (Unlocked.begin_write t e w h)) =
      let v = unlocked-Inv r in
      record { began = move s.pc t (copying 0) h v.began; same_length = v.same_length }
  unlocked-Inv (Unlocked.later {s} r (Unlocked.copy t i e h)) =
      let v = unlocked-Inv r in
      record {
        began = move s.pc t (copying (suc i)) (subst (Began (job t).p) e (v.began t)) v.began;
        same_length = length-copy_byte (job t).buff s.mem (job t).p i ∙ v.same_length;
      }
  unlocked-Inv (Unlocked.later {s} r (Unlocked.end_write t i e h)) =
      let v = unlocked-Inv r in
      record { began = move s.pc t wrote tt v.began; same_length = v.same_length }
  unlocked-Inv (Unlocked.later {s} r (Unlocked.read t e w h)) =
      let v = unlocked-Inv r in
      record { began = move s.pc t (got _) tt v.began; same_length = v.same_length }

  either-Inv :
      {mem : List ℕ} {s : System} → Locked.Reach job mem s ⊎ Unlocked.Reach job mem s → Inv mem s
  either-Inv (inl r) = locked-Inv r
  either-Inv (inr r) = unlocked-Inv r

clamp_count-le : (p cnt i : ℕ) → p < mem_size → i < clamp_count p cnt → p + i < mem_size
unfolding clamp_count
clamp_count-le p cnt i h lt = ground arith

stored-there :
    (b : UserBuffer) (mem : List ℕ) (p i : ℕ)
    → p + i < length mem
    → get_or (copy_byte b mem p i) (p + i) 0 ≡ fetched b i (get_or mem (p + i) 0)
unfolding copy_byte
stored-there b mem p i h = get_or-set_here mem (p + i) _ h

-- From a memory of MEM_SIZE bytes, in every reachable state of the driver with the mutex and in every
-- one of the driver without, whatever the calls are about: a thread with a round of the copy loop
-- before it is about to store inside the memory, and what arrives from the user stands there after
-- the round.
pub store_inside :
    (job : ℕ → Job) (mem : List ℕ) (s : System) (t i : ℕ)
    → length mem ≡ mem_size
    → Locked.Reach job mem s ⊎ Unlocked.Reach job mem s
    → s.pc t ≡ copying i
    → i < count_of job t
    → ((job t).p + i < mem_size)
      × (get_or (copy_byte (job t).buff s.mem (job t).p i) ((job t).p + i) 0
          ≡ fetched (job t).buff i (get_or s.mem ((job t).p + i) 0))
store_inside job mem s t i whole r at more =
    let v = either-Inv job r in
    let inside =
      clamp_count-le (job t).p (job t).cnt i (subst (Began (job t).p) at (v.began t)) more in
    (inside, stored-there (job t).buff s.mem (job t).p i (omega (arith, v.same_length)))
