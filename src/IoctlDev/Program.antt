-- ===== src/IoctlDev/Program.antt =====
-- The other handlers of 02-creatDevice/char_dev/char_drv.c, and the whole program app.c beside it.
use linux_dev_note.Common.{ℕ, ◌≡◌, ap, Bool, true, List, [], ◌∷◌, ◌++◌, map, if◌then◌else◌}
use linux_dev_note.Common.Int.{ℤ, pos, negsuc}
use linux_dev_note.IoctlDev.{
  IoctlCode, IsIoctlCode, Log, execute, write, read, rw_both, ioctl, app_log,
}
use linux_dev_note.IoctlDev.Session.{app_log_lem}

-- What the driver logs.
pub data Entry : Type 0 where
  file_open file_close read_ok write_ok : Entry
  ioctl_entry : Log → Entry

-- `_open`, `_release`, `_read` and `_write`: the result, and the line logged.
unfoldable pub open_file : ℤ × Entry
open_file = (pos 0, Entry.file_open)

unfoldable pub release_file : ℤ × Entry
release_file = (pos 0, Entry.file_close)

unfoldable pub read_file : ℕ → ℤ × Entry
read_file cnt = (pos 0, Entry.read_ok)

unfoldable pub write_file : ℕ → ℤ × Entry
write_file cnt = (pos 0, Entry.write_ok)

-- What a run of the program comes to: its result, and what the driver has logged.
pub record Run : Type 0 where
  pub status : ℤ
  pub log : List Entry

module _ (c : IoctlCode) where
  -- `main`. `found` says whether the device node leads to the driver; else open gives -1. None of the
  -- results of the calls behind open is looked at.
  unfoldable pub main : ℤ → Bool → Run
  unfolding open_file release_file read_file write_file
  main garbage found =
      if found
      then record {
        status = pos 0;
        log =
            open_file.1
            ∷ (write_file 1).1
            ∷ (read_file 1).1
            ∷ Entry.ioctl_entry (ioctl c garbage (execute c)).1
            ∷ Entry.ioctl_entry (ioctl c garbage (write c)).1
            ∷ Entry.ioctl_entry (ioctl c garbage (read c)).1
            ∷ Entry.ioctl_entry (ioctl c garbage (rw_both c)).1
            ∷ release_file.1
            ∷ [];
      }
      else record { status = negsuc 0; log = [] }

  -- Where the macros of ioctl.h keep their laws and the device is there, the driver sees the open, a
  -- write, a read, the four ioctl commands, each in its own case, and the close, in this order, and
  -- the program returns 0.
  pub main-log :
      (law : IsIoctlCode c) (garbage : ℤ)
      → main garbage true ≡ record {
        status = pos 0;
        log =
            Entry.file_open
            ∷ Entry.write_ok
            ∷ Entry.read_ok
            ∷ Entry.ioctl_entry Log.executed
            ∷ Entry.ioctl_entry Log.written
            ∷ Entry.ioctl_entry Log.was_read
            ∷ Entry.ioctl_entry Log.read_written
            ∷ Entry.file_close
            ∷ [];
      }
  unfolding main app_log
  main-log law garbage =
      ap
        (λ l. record {
          status = pos 0;
          log =
              Entry.file_open ∷ Entry.write_ok ∷ Entry.read_ok ∷ map (λ e. Entry.ioctl_entry e.1) l
              ++ Entry.file_close ∷ [];
        })
        (app_log_lem c law garbage)
