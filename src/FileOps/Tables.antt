-- ===== src/FileOps/Tables.antt =====
-- The `file_operations` of the drivers, with the handlers of open and release, which log and return 0:
-- useMutex/mutex_drv.c, RWTest/fileOperate_drv.c and semaphore_drv.c of 03-fileOperate,
-- 04-queue_wait/queue_wait_dev.c, char_drv.c and misc_drv.c of 02-creatDevice, 06-bus/driver.c and
-- 11-mmap/mmap_drv.c. A field that is not set is `none`.
use linux_dev_note.Common.{ℕ, Bool, List, [], ◌∷◌, ◌++◌, Option, none, some, ltb, if◌then◌else◌}
use linux_dev_note.Common.Int.{ℤ, pos}
use linux_dev_note.UserSpace.{UserBuffer}
use linux_dev_note.FileOps.{FileOps, Outcome, returns, undefined, waits}
use linux_dev_note.MutexDev
use linux_dev_note.MutexDev.{Share, Whence}
use linux_dev_note.IoTest
use linux_dev_note.IoTest.{Io}
use linux_dev_note.QueueDev
use linux_dev_note.QueueDev.{Dev, Attempt}
use linux_dev_note.SemaphoreDev
use linux_dev_note.IoctlDev
use linux_dev_note.IoctlDev.{IoctlCode}
use linux_dev_note.IoctlDev.Program
use linux_dev_note.MiscDev
use linux_dev_note.BusDev.Handlers
use linux_dev_note.MmapDev.{Mapping, my_map}

-- a handler that logs and returns 0, on a state that does not hold the log
abbrev returns_zero : {S : Type 0} → S → ℤ × S
returns_zero s = (pos 0, s)

-- useMutex/mutex_drv.c
unfoldable pub mutex_open : Share → ℤ × Share
mutex_open sh = returns_zero sh

unfoldable pub mutex_release : Share → ℤ × Share
mutex_release sh = returns_zero sh

abbrev pub mutex_read : UserBuffer → Share → ℕ → ℤ → Outcome Share
mutex_read buff sh cnt loff =
    let r = MutexDev.read buff sh cnt loff in
    returns (record { state = sh; ret = r.ret; loff = r.loff; out = r.out })

abbrev pub mutex_write : UserBuffer → Share → ℕ → ℤ → Outcome Share
mutex_write buff sh cnt loff =
    let r = MutexDev.write buff sh cnt loff in
    returns (record { state = r.0; ret = r.1.ret; loff = r.1.loff; out = [] })

abbrev pub mutex_fops : FileOps Share
mutex_fops = record {
  on_open = some mutex_open;
  llseek = some (λ sh p offset whence. MutexDev.llseek p offset whence);
  release = some mutex_release;
  read = some mutex_read;
  write = some mutex_write;
  unlocked_ioctl = none;
  mmap = none;
}

-- RWTest/fileOperate_drv.c; its handlers leave `*f_pos` alone.
unfoldable pub io_open : Io → ℤ × Io
io_open s = returns_zero s

unfoldable pub io_close : Io → ℤ × Io
io_close s = returns_zero s

abbrev pub io_served : ℤ → Option IoTest.Reply → Outcome Io
io_served p none = undefined
io_served p (some r) = returns (record { state = r.io; ret = r.ret; loff = p; out = r.out })

abbrev pub io_fops : FileOps Io
io_fops = record {
  on_open = some io_open;
  release = some io_close;
  llseek = none;
  read = some (λ buf s size p. io_served p (IoTest.read buf s size));
  write = some (λ buf s size p. io_served p (IoTest.write buf s size));
  unlocked_ioctl = none;
  mmap = none;
}

-- 04-queue_wait/queue_wait_dev.c; `nonblock` is O_NONBLOCK of the file's flags.
unfoldable pub queue_open : Dev → ℤ × Dev
queue_open s = returns_zero s

unfoldable pub queue_close : Dev → ℤ × Dev
queue_close s = returns_zero s

abbrev queue_served : ℤ → Option QueueDev.Reply → Outcome Dev
queue_served p none = undefined
queue_served p (some r) = returns (record { state = r.dev; ret = r.ret; loff = p; out = r.out })

abbrev queue_attempted : UserBuffer → Dev → ℕ → ℤ → Attempt → Outcome Dev
queue_attempted buf s size p Attempt.passes = queue_served p (QueueDev.consume buf s size)
queue_attempted buf s size p (Attempt.fails e) =
    returns (record { state = s; ret = e; loff = p; out = [] })
queue_attempted buf s size p Attempt.sleeps = waits

abbrev pub queue_fops : Bool → FileOps Dev
queue_fops nonblock = record {
  on_open = some queue_open;
  release = some queue_close;
  llseek = none;
  read = some (λ buf s size p. queue_attempted buf s size p (QueueDev.attempt nonblock s));
  write = some (λ buf s size p. queue_served p (QueueDev.write buf s size));
  unlocked_ioctl = none;
  mmap = none;
}

-- 03-fileOperate/semaphore/semaphore_drv.c, over the count of the semaphore
unfoldable pub semaphore_open : ℕ → ℤ × ℕ
semaphore_open count = returns_zero count

unfoldable pub semaphore_release : ℕ → ℤ × ℕ
semaphore_release count = returns_zero count

abbrev pub semaphore_fops : FileOps ℕ
semaphore_fops = record {
  on_open = some semaphore_open;
  release = some semaphore_release;
  llseek = none;
  read = some (λ buf count cnt p.
      if ltb 0 count
      then returns (record {
        state = (SemaphoreDev.read count).0;
        ret = (SemaphoreDev.read count).1;
        loff = p;
        out = [];
      })
      else waits);
  write = some (λ buf count cnt p. returns (record {
    state = (SemaphoreDev.write count cnt).0;
    ret = (SemaphoreDev.write count cnt).1;
    loff = p;
    out = [];
  }));
  unlocked_ioctl = none;
  mmap = none;
}

-- 02-creatDevice/char_dev/char_drv.c, over its log
abbrev pub logs : {E : Type 0} → ℤ × E → List E → ℤ × List E
logs (r, e) l = (r, l ++ e ∷ [])

abbrev pub log_served : {E : Type 0} → ℤ × E → List E → ℤ → Outcome (List E)
log_served (r, e) l p = returns (record { state = l ++ e ∷ []; ret = r; loff = p; out = [] })

abbrev pub char_fops : IoctlCode → ℤ → FileOps (List Program.Entry)
char_fops c garbage = record {
  on_open = some (logs Program.open_file);
  release = some (logs Program.release_file);
  llseek = none;
  read = some (λ buf l cnt p. log_served (Program.read_file cnt) l p);
  write = some (λ buf l cnt p. log_served (Program.write_file cnt) l p);
  unlocked_ioctl = some (λ l cmd.
      let r = IoctlDev.ioctl c garbage cmd in (r.0, l ++ Program.Entry.ioctl_entry r.1 ∷ []));
  mmap = none;
}

-- 02-creatDevice/misc_dev/misc_drv.c, over its log
abbrev pub misc_fops : ℕ → FileOps (List MiscDev.Entry)
misc_fops arg = record {
  on_open = some (logs MiscDev.misc_open);
  release = some (logs MiscDev.misc_release);
  llseek = none;
  read = some (λ buf l cnt p. log_served (MiscDev.misc_read cnt) l p);
  write = some (λ buf l cnt p. log_served (MiscDev.misc_write cnt) l p);
  unlocked_ioctl = some (λ l cmd. logs (MiscDev.misc_ioctl cmd arg) l);
  mmap = none;
}

-- 06-bus/driver.c, over the log of the misc device that its driver registers
abbrev pub bus_fops : FileOps (List Handlers.Entry)
bus_fops = record {
  on_open = some (logs Handlers.misc_open);
  release = some (logs Handlers.misc_release);
  llseek = none;
  read = some (λ buf l cnt p. log_served (Handlers.misc_read cnt) l p);
  write = some (λ buf l cnt p. log_served (Handlers.misc_write cnt) l p);
  unlocked_ioctl = none;
  mmap = none;
}

-- 11-mmap/mmap_drv.c, over the mappings made
unfoldable pub mmap_open : List Mapping → ℤ × List Mapping
mmap_open l = returns_zero l

abbrev mapped : ℤ × Option Mapping → List Mapping → ℤ × List Mapping
mapped (r, none) l = (r, l)
mapped (r, some m) l = (r, l ++ m ∷ [])

abbrev pub mmap_fops : (Mapping → ℤ) → ℕ → FileOps (List Mapping)
mmap_fops remap_pfn_range page = record {
  on_open = some mmap_open;
  release = none;
  llseek = none;
  read = none;
  write = none;
  unlocked_ioctl = none;
  mmap = some (λ l vm_start vm_end. mapped (my_map remap_pfn_range page vm_start vm_end) l);
}
