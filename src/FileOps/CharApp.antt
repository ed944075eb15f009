-- ===== src/FileOps/CharApp.antt =====
-- The program 02-creatDevice/char_dev/app.c on the driver char_drv.c, through the file layer.
use linux_dev_note.Common.{
  ◌++◌, take, arith, ℕ, ◌≡◌, refl, ap, ◌∙◌, Bool, true, false, List, [], ◌∷◌, Option, none, some,
  if◌then◌else◌,
}
use linux_dev_note.Common.Int.{ℤ, pos, negsuc, ltb_ℤ}
use linux_dev_note.UserSpace.{holding}
use linux_dev_note.IoctlDev.{IoctlCode, IsIoctlCode, Log, execute, write, read, rw_both, ioctl}
use linux_dev_note.IoctlDev.Program
use linux_dev_note.IoctlDev.Program.{Entry, Run, main-log}
use linux_dev_note.FileOps.{Vfs, IsVfs, FileOps, Outcome, returns, undefined, waits}
use linux_dev_note.FileOps.Tables.{char_fops, logs}

-- the driver's state behind a call whose result the program does not look at
abbrev pub then_state : {S : Type 0} → Outcome S → (S → Option Run) → Option Run
then_state (returns r) k = k r.state
then_state undefined k = none
then_state waits k = none

module _ (v : Vfs) (c : IoctlCode) (garbage : ℤ) where
  abbrev ops : FileOps (List Entry)
  ops = char_fops c garbage

  -- the four ioctl calls of `main`, and its close
  unfoldable pub ioctls : List Entry → Run
  ioctls l =
      let l1 = (v.ioctl (List Entry) ops l (execute c)).1 in
      let l2 = (v.ioctl (List Entry) ops l1 (write c)).1 in
      let l3 = (v.ioctl (List Entry) ops l2 (read c)).1 in
      let l4 = (v.ioctl (List Entry) ops l3 (rw_both c)).1 in
      record { status = pos 0; log = v.close_file (List Entry) ops l4 }

  -- `main`, from a driver that has logged nothing; `buf` starts with 0.
  unfoldable pub vfs_main : Bool → Option Run
  unfolding ioctls
  vfs_main false = some (record { status = negsuc 0; log = [] })
  vfs_main true =
      let opened = v.open_file (List Entry) ops [] in
      if ltb_ℤ opened.0 (pos 0)
      then some (record { status = negsuc 0; log = opened.1 })
      else then_state (v.write (List Entry) ops (holding (0 ∷ [])) opened.1 1 (pos 0)) (λ l.
        then_state (v.read (List Entry) ops (holding []) l 1 (pos 0)) (λ l'. some (ioctls l')))

  -- The log of the driver behind its first `n` entries.
  abbrev entries : List Entry
  entries =
      Entry.file_open
      ∷ Entry.write_ok
      ∷ Entry.read_ok
      ∷ Entry.ioctl_entry (ioctl c garbage (execute c)).1
      ∷ Entry.ioctl_entry (ioctl c garbage (write c)).1
      ∷ Entry.ioctl_entry (ioctl c garbage (read c)).1
      ∷ Entry.ioctl_entry (ioctl c garbage (rw_both c)).1
      ∷ Entry.file_close
      ∷ []

  module _ (law : IsVfs v) where
    ioctl_call :
        (l : List Entry) (cmd : ℕ)
        → v.ioctl (List Entry) ops l cmd
          ≡ ((ioctl c garbage cmd).0, l ++ Entry.ioctl_entry (ioctl c garbage cmd).1 ∷ [])
    ioctl_call l cmd = law.ioctl_set (List Entry) ops l cmd _ refl

    ioctls-entries : ioctls (take 3 entries) ≡ record { status = pos 0; log = entries }
    unfolding ioctls Program.release_file
    ioctls-entries =
        rw
          (
            ioctl_call (take 3 entries) (execute c),
            ioctl_call (take 4 entries) (write c),
            ioctl_call (take 5 entries) (read c),
            ioctl_call (take 6 entries) (rw_both c),
            law.close_set (List Entry) ops (take 7 entries) (logs Program.release_file) refl,
          )
          refl

    vfs_main-entries : vfs_main true ≡ some (record { status = pos 0; log = entries })
    unfolding vfs_main Program.open_file Program.write_file Program.read_file
    vfs_main-entries =
        rw
          (
            law.open_set (List Entry) ops [] (logs Program.open_file) refl,
            law.write_set (List Entry) ops (holding (0 ∷ [])) (take 1 entries) 1 (pos 0) _
                (omega arith) refl,
            law.read_set (List Entry) ops (holding []) (take 2 entries) 1 (pos 0) _ (omega arith)
                refl,
            ioctls-entries,
          )
          refl

-- Where the file layer and the macros of ioctl.h keep their laws: with the device there, and through
-- the driver's `file_operations`, the driver sees the open, a write, a read, the four ioctl commands,
-- each in its own case, and the close, in this order, and the program returns 0.
pub vfs_main-log :
    (v : Vfs) (law : IsVfs v) (c : IoctlCode) (code_law : IsIoctlCode c) (garbage : ℤ)
    → vfs_main v c garbage true
      ≡ some (record {
        status = pos 0;
        log =
            Entry.file_open
            ∷ Entry.write_ok
            ∷ Entry.read_ok
            ∷ Entry.ioctl_entry Log.executed
            ∷ Entry.ioctl_entry Log.written
            ∷ Entry.ioctl_entry Log.was_read
            ∷ Entry.ioctl_entry Log.read_written
            ∷ Entry.file_close
            ∷ [];
      })
unfolding Program.main Program.open_file Program.write_file Program.read_file Program.release_file
vfs_main-log v law c code_law garbage =
    vfs_main-entries v c garbage law ∙ ap some (main-log c code_law garbage)
