-- ===== src/SemaphoreDev.antt =====
-- The counting device of 03-fileOperate/semaphore/semaphore_drv.c: `_read` takes the semaphore and
-- `_write` gives it. What the kernel's `down` and `up` promise is in the steps: `down` returns only
-- where the count is above 0, and takes 1 off; `up` adds 1.
pub mod Count
use linux_dev_note.Common.{
  ℕ, suc, ◌-◌, ◌<◌, ◌≡◌, ◌+◌, Bool, true, false, List, [], ◌∷◌, if◌then◌else◌, ◌==◌, update,
}
use linux_dev_note.Common.Int.{ℤ, pos}

-- Where a call of `_read` stands.
pub data Pc : Type 0 where
  waiting : Pc  -- in `down`
  done : ℤ → Pc  -- returned

-- `sem.count`, the readers, and how many calls of each kind have returned.
pub record System : Type 0 where
  pub count : ℕ
  pub pc : ℕ → Pc
  pub reads : ℕ
  pub writes : ℕ

-- `_write` of `cnt` bytes: the new count, and the result.
unfoldable pub write : ℕ → ℕ → ℕ × ℤ
write count cnt = (count + 1, pos cnt)

-- `_read` behind `down`.
unfoldable pub read : ℕ → ℕ × ℤ
read count = (count - 1, pos 0)

pub data Step (s : System) : System → Type 0 where
  up : (cnt : ℕ) → Step s (record s { count = (write s.count cnt).0; writes = suc s.writes })
  down :
      (t : ℕ)
      → s.pc t ≡ waiting
      → 0 < s.count
      → Step s (record s {
        count = (read s.count).0;
        pc = update s.pc t (done (read s.count).1);
        reads = suc s.reads;
      })

-- `mod_init`: sema_init(&sem, 1), and readers that have just called.
abbrev pub init : System
init = record { count = 1; pc = λ t. waiting; reads = 0; writes = 0 }

pub data Reach : System → Type 0 where
  start : Reach init
  later : {s u : System} → Reach s → Step s u → Reach u
