-- ===== src/MutexDev/Order.antt =====
-- The calls of 03-fileOperate/mutex/useMutex/mutex_drv.c made one after another, in the order in which
-- they got the mutex, and what that order says of the memory and of the readers.
use linux_dev_note.Common.{
  ℕ, zero, suc, ◌+◌, ◌≤◌, ◌<◌, ◌^◌, ◌≡◌, ◌++◌, refl, ◌∙◌, ap, ◌≢◌, Bool, true, false, List, [], ◌∷◌,
  arith, if◌then◌else◌, ◌==◌, ℕ_discrete, leb, ◌%◌, update,
}
use linux_dev_note.Common.Int.{pos}
use linux_dev_note.MutexDev.{mem_size, Share, clamp_count, write, copy_byte, copy_in}
use linux_dev_note.MutexDev.Threads.{Job, Pc, copying, reading, wrote, got, System, critical}
use linux_dev_note.MutexDev.Locked.{count_of, shown}
use linux_dev_note.UserSpace.{UserBuffer}

-- One more round at the end of the loop.
pub copy_in-suc :
    (buff : UserBuffer) (p i n : ℕ) (mem : List ℕ)
    → copy_in buff p i (suc n) mem ≡ copy_byte buff (copy_in buff p i n mem) p (i + n)
unfolding copy_in
copy_in-suc buff p i zero mem = ap (copy_byte buff mem p) (omega arith)
copy_in-suc buff p i (suc n) mem =
    copy_in-suc buff p (suc i) n (copy_byte buff mem p i) ∙ ap (copy_byte buff _ p) (omega arith)

-- how often a thread stands in a list
abbrev pub count : ℕ → List ℕ → ℕ
count t [] = 0
count t (u ∷ us) = (if u == t then 1 else 0) + count t us

abbrev pub written : Pc → ℕ
written wrote = 1
written _ = 0

abbrev pub is_got : Pc → Bool
is_got (got out) = true
is_got _ = false

got_at :
    (pc : ℕ → Pc) (t u : ℕ) (x out : List ℕ) → t ≡ u → update pc t (got x) u ≡ got out → out ≡ x
got_at pc t u x out p e = ground arith

-- Inside the memory a whole `_write` is its loop.
pub write-eq-copy_in :
    (buff : UserBuffer) (sh : Share) (cnt p : ℕ)
    → p < mem_size
    → (write buff sh cnt (pos p)).0.mem ≡ copy_in buff p 0 (clamp_count p cnt) sh.mem
unfolding write
write-eq-copy_in buff sh cnt p h =
    let whole : p % 2 ^ 64 ≡ p = omega arith in
    let inside : leb mem_size p ≡ false = ground arith in rw (whole, inside)

module _ (job : ℕ → Job) (initial : List ℕ) where
  -- the memory after the calls of `_write` of the listed threads, the last one first
  unfoldable pub commit : List ℕ → List ℕ
  commit [] = initial
  commit (t ∷ ts) =
      (write (job t).buff (record { mem = commit ts; writecount = 0 }) (job t).cnt
        (pos (job t).p)).0.mem

  -- What a reader got is from the memory after the first of the writes that have been made.
  abbrev pub Saw : List ℕ → (ℕ → Pc) → Type 0
  Saw order pc =
      (t : ℕ) (out : List ℕ)
      → pc t ≡ got out
      → (since earlier : List ℕ) × (order ≡ since ++ earlier) × (out ≡ shown job t (commit earlier))

  -- The order holds the threads that have written, each once.
  abbrev pub Counts : List ℕ → (ℕ → Pc) → Type 0
  Counts order pc = (t : ℕ) → count t order ≡ written (pc t)

  -- Nobody but `o` is between mutex_lock and mutex_unlock.
  abbrev pub Alone : ℕ → (ℕ → Pc) → Type 0
  Alone o pc = (t : ℕ) → t ≢ o → critical (pc t) ≡ false

  -- The memory, by who holds the mutex.
  pub data Phase (order : List ℕ) (s : System) : Type 0 where
    free :
        s.locked ≡ false
        → s.mem ≡ commit order
        → ((t : ℕ) → critical (s.pc t) ≡ false)
        → Phase order s
    held_write :
        (o i : ℕ)
        → s.locked ≡ true
        → s.pc o ≡ copying i
        → i ≤ count_of job o
        → (job o).p < mem_size
        → s.mem ≡ copy_in (job o).buff (job o).p 0 i (commit order)
        → Alone o s.pc
        → Phase order s
    held_read :
        (o : ℕ)
        → s.locked ≡ true
        → s.pc o ≡ reading
        → s.mem ≡ commit order
        → Alone o s.pc
        → Phase order s

  pub record Inv (s : System) : Type 0 where
    pub order : List ℕ
    pub phase : Phase order s
    pub counts : Counts order s.pc
    pub saw : Saw order s.pc

  pub Saw-update :
      (order : List ℕ) (pc : ℕ → Pc) (t : ℕ) (x : Pc)
      → is_got x ≡ false
      → Saw order pc
      → Saw order (update pc t x)
  Saw-update order pc t x h sa u out e = elim (ℕ_discrete t u) [
    | yes p ↦ absurd (ground arith)
    | no n ↦ sa u out (ground arith)
  ]

  pub Saw-update_got :
      (order : List ℕ) (pc : ℕ → Pc) (t : ℕ) (mem : List ℕ)
      → mem ≡ commit order
      → Saw order pc
      → Saw order (update pc t (got (shown job t mem)))
  Saw-update_got order pc t mem m sa u out e = elim (ℕ_discrete t u) [
    | yes p ↦ (
      [],
      order,
      refl,
      got_at pc t u (shown job t mem) out p e
          ∙ ap (shown job t) m
          ∙ ap (λ z. shown job z (commit order)) p,
    )
    | no n ↦ sa u out (ground arith)
  ]

  pub Saw-cons : (order : List ℕ) (pc : ℕ → Pc) (t : ℕ) → Saw order pc → Saw (t ∷ order) pc
  Saw-cons order pc t sa u out e =
      let (since, earlier, split, seen) = sa u out e in
      (t ∷ since, earlier, ap (λ l. t ∷ l) split, seen)

  pub owner_unique : (pc : ℕ → Pc) (o t : ℕ) → Alone o pc → critical (pc t) ≡ true → t ≡ o
  owner_unique pc o t q c = elim (ℕ_discrete t o) [
    | yes e ↦ e
    | no n ↦ absurd (ground (arith, q t))
  ]
