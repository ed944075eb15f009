-- ===== src/MutexDev/Locked.antt =====
-- The calls of 03-fileOperate/mutex/useMutex/mutex_drv.c interleaved: a step is what one thread
-- does between two points where another may run. mutex_lock waits until the mutex is free.
use linux_dev_note.Common.{ℕ, suc, ◌≤◌, ◌<◌, ◌≡◌, true, false, List, update}
use linux_dev_note.Common.Int.{pos}
use linux_dev_note.MutexDev.{mem_size, clamp_count, read, copy_byte}
use linux_dev_note.MutexDev.Threads.{
  Job, entering, copying, reading, skipped, wrote, got, System, fresh,
}

module _ (job : ℕ → Job) where
  -- the `count` of a call
  abbrev pub count_of : ℕ → ℕ
  count_of t = clamp_count (job t).p (job t).cnt

  -- the bytes that a `_read` of `mem` hands to the user
  abbrev pub shown : ℕ → List ℕ → List ℕ
  shown t mem =
      (read (job t).buff (record { mem = mem; writecount = 0 }) (job t).cnt (pos (job t).p)).out

  pub data Step (s : System) : System → Type 0 where
    skip :
        (t : ℕ)
        → s.pc t ≡ entering
        → mem_size ≤ (job t).p
        → Step s (record s { pc = update s.pc t skipped })
    lock_write :
        (t : ℕ)
        → s.pc t ≡ entering
        → (job t).writes ≡ true
        → (job t).p < mem_size
        → s.locked ≡ false
        → Step s (record s { locked = true; pc = update s.pc t (copying 0) })
    copy :
        (t i : ℕ)
        → s.pc t ≡ copying i
        → i < count_of t
        → Step s (record s {
          mem = copy_byte (job t).buff s.mem (job t).p i;
          pc = update s.pc t (copying (suc i));
        })
    unlock_write :
        (t i : ℕ)
        → s.pc t ≡ copying i
        → count_of t ≤ i
        → Step s (record s { locked = false; pc = update s.pc t wrote })
    lock_read :
        (t : ℕ)
        → s.pc t ≡ entering
        → (job t).writes ≡ false
        → (job t).p < mem_size
        → s.locked ≡ false
        → Step s (record s { locked = true; pc = update s.pc t reading })
    unlock_read :
        (t : ℕ)
        → s.pc t ≡ reading
        → Step s (record s { locked = false; pc = update s.pc t (got (shown t s.mem)) })

  pub data Reach (mem : List ℕ) : System → Type 0 where
    start : Reach mem (fresh mem)
    later : {s u : System} → Reach mem s → Step s u → Reach mem u
