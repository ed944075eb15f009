-- ===== src/MiscDev.antt =====
-- The handlers of 02-creatDevice/misc_dev/misc_drv.c, which log and keep no state.
use linux_dev_note.Common.{ℕ}
use linux_dev_note.Common.Int.{ℤ, pos}

-- the lines logged
pub data Entry : Type 0 where
  said_ioctl said_open said_release said_read said_write : Entry

-- Each handler: its result, and its line.
unfoldable pub misc_ioctl : ℕ → ℕ → ℤ × Entry
misc_ioctl cmd arg = (pos 0, Entry.said_ioctl)

unfoldable pub misc_open : ℤ × Entry
misc_open = (pos 0, Entry.said_open)

unfoldable pub misc_release : ℤ × Entry
misc_release = (pos 0, Entry.said_release)

unfoldable pub misc_read : ℕ → ℤ × Entry
misc_read count = (pos 0, Entry.said_read)

-- It takes no byte, and says that it has taken all.
unfoldable pub misc_write : ℕ → ℤ × Entry
misc_write size = (pos size, Entry.said_write)
