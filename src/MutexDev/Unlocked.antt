-- ===== src/MutexDev/Unlocked.antt =====
-- The calls of 03-fileOperate/mutex/unuseMutex/mutex_drv.c interleaved: the driver of
-- MutexDev/Locked.antt with the calls of mutex_lock and mutex_unlock commented out, so a thread
-- goes on whatever the others do. The field `locked` is never set.
use linux_dev_note.Common.{ℕ, suc, ◌≤◌, ◌<◌, ◌≡◌, true, false, List, update}
use linux_dev_note.MutexDev.{mem_size, copy_byte}
use linux_dev_note.MutexDev.Threads.{Job, entering, copying, skipped, wrote, got, System, fresh}
use linux_dev_note.MutexDev.Locked.{count_of, shown}

module _ (job : ℕ → Job) where
  pub data Step (s : System) : System → Type 0 where
    skip :
        (t : ℕ)
        → s.pc t ≡ entering
        → mem_size ≤ (job t).p
        → Step s (record s { pc = update s.pc t skipped })
    begin_write :
        (t : ℕ)
        → s.pc t ≡ entering
        → (job t).writes ≡ true
        → (job t).p < mem_size
        → Step s (record s { pc = update s.pc t (copying 0) })
    copy :
        (t i : ℕ)
        → s.pc t ≡ copying i
        → i < count_of job t
        → Step s (record s {
          mem = copy_byte (job t).buff s.mem (job t).p i;
          pc = update s.pc t (copying (suc i));
        })
    end_write :
        (t i : ℕ)
        → s.pc t ≡ copying i
        → count_of job t ≤ i
        → Step s (record s { pc = update s.pc t wrote })
    read :
        (t : ℕ)
        → s.pc t ≡ entering
        → (job t).writes ≡ false
        → (job t).p < mem_size
        → Step s (record s { pc = update s.pc t (got (shown job t s.mem)) })

  pub data Reach (mem : List ℕ) : System → Type 0 where
    start : Reach mem (fresh mem)
    later : {s u : System} → Reach mem s → Step s u → Reach mem u
