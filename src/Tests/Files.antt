-- ===== src/Tests/Files.antt =====
-- The file layer as a plain dispatch, and sessions on the drivers through it.
use linux_dev_note.Common.{◌≡◌, refl, arith, true, List, [], ◌∷◌, none, some, ℕ}
use linux_dev_note.Common.Int.{pos, negsuc, minus, einval}
use linux_dev_note.MmapDev.Session.{copies}
use linux_dev_note.MutexDev.{Share, Whence}
use linux_dev_note.IoctlDev.{Log}
use linux_dev_note.IoctlDev.Program.{Entry}
use linux_dev_note.FileOps.{Vfs, IsVfs, settled, refused, FileCall, read_bytes, write_bytes, lseek}
use linux_dev_note.FileOps.Flat.{flat_session, FlatFiles, all_meant}
use linux_dev_note.FileOps.Refine.{Ends, session-flat}
use linux_dev_note.IoTest.{Io}
use linux_dev_note.IoTest.Append.{Holds}
use linux_dev_note.FileOps.EchoCat.{echoes, cat, cat-echoes}
use linux_dev_note.FileOps.CharApp.{vfs_main, vfs_main-log}
use linux_dev_note.Tests.Control.{codes, codes_law}

abbrev pub direct : Vfs
direct = record {
  open_file = λ S ops s. elim ops.on_open [ none ↦ (pos 0, s) | some h ↦ h s ];
  close_file = λ S ops s. elim ops.release [ none ↦ s | some h ↦ (h s).1 ];
  lseek = λ S ops s p offset whence. elim ops.llseek [
    | none ↦ (minus einval, p)
    | some h ↦ h s p offset whence
  ];
  read = λ S ops buf s n p. elim ops.read [ none ↦ refused s p | some h ↦ settled p (h buf s n p) ];
  write =
      λ S ops buf s n p. elim ops.write [ none ↦ refused s p | some h ↦ settled p (h buf s n p) ];
  ioctl = λ S ops s cmd. elim ops.unlocked_ioctl [ none ↦ (minus einval, s) | some h ↦ h s cmd ];
}

pub direct_law : IsVfs direct
direct_law = record {
  open_set = λ S ops s h e. rw e refl;
  open_unset = λ S ops s e. rw e refl;
  close_set = λ S ops s h e. rw e refl;
  lseek_set = λ S ops s p offset whence h e. rw e refl;
  read_set = λ S ops buf s n p h le e. rw e refl;
  read_unset = λ S ops buf s n p e. rw e refl;
  write_set = λ S ops buf s n p h le e. rw e refl;
  write_unset = λ S ops buf s n p e. rw e refl;
  ioctl_set = λ S ops s cmd h e. rw e refl;
}

-- Through one descriptor three bytes to the end, of which two have room, and a seek before the start,
-- which fails; through another back to the last two, and a read of ten.
abbrev calls : List (ℕ × FileCall)
calls =
    (3, lseek (negsuc 0) Whence.seek_end)
    ∷ (3, write_bytes (7 ∷ 8 ∷ 9 ∷ []))
    ∷ (3, lseek (negsuc 0) Whence.seek_set)
    ∷ (4, lseek (negsuc 0) Whence.seek_end)
    ∷ (4, read_bytes 10)
    ∷ []

abbrev blank : Share
blank = record { mem = copies 128 0; writecount = 0 }

abbrev blank_file : FlatFiles
blank_file = record { bytes = copies 128 0; at = λ d. 0 }

session-flat_example : Ends direct direct_law calls blank blank_file
session-flat_example =
    session-flat direct direct_law calls blank blank_file refl refl (λ d. omega arith) (omega arith)

-- What the file answers there.
flat_answers :
    (flat_session (all_meant calls) blank_file).0
    ≡ record { ret = pos 126; out = [] }
      ∷ record { ret = pos 2; out = [] }
      ∷ record { ret = minus einval; out = [] }
      ∷ record { ret = pos 126; out = [] }
      ∷ record { ret = pos 2; out = 7 ∷ 8 ∷ [] }
      ∷ []
unfolding flat_session
flat_answers = refl

vfs_main-log_example :
    vfs_main direct codes (pos 4) true
    ≡ some (record {
      status = pos 0;
      log =
          Entry.file_open
          ∷ Entry.write_ok
          ∷ Entry.read_ok
          ∷ Entry.ioctl_entry Log.executed
          ∷ Entry.ioctl_entry Log.written
          ∷ Entry.ioctl_entry Log.was_read
          ∷ Entry.ioctl_entry Log.read_written
          ∷ Entry.file_close
          ∷ [];
    })
vfs_main-log_example = vfs_main-log direct direct_law codes codes_law (pos 4)

abbrev empty : Io
empty = record { postion = 0; byte = copies 100 0; buff_len = 0; buff_pos = 0 }

abbrev texts : List (List ℕ)
texts = (1 ∷ 2 ∷ []) ∷ (3 ∷ []) ∷ []

cat-echoes_example :
    (s' s'' : Io) × (echoes direct texts empty ≡ some s')
    × (cat direct 4 2 s' ≡ some (1 ∷ 2 ∷ 3 ∷ [], s''))
    × Holds [] s''
cat-echoes_example =
    cat-echoes direct direct_law texts 4 2 empty
      (record { full = refl; front = refl; len = refl; end = refl; content = refl }) (omega arith)
      (omega arith) (omega arith) (omega arith)
