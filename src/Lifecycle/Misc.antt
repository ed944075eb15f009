-- ===== src/Lifecycle/Misc.antt =====
-- Loading and unloading of the misc devices: 02-creatDevice/misc_dev/misc_drv.c,
-- 04-queue_wait/queue_wait_dev.c and 11-mmap/mmap_drv.c. `result` is what misc_register returns:
-- nothing is registered where it is not 0.
use linux_dev_note.Common.{◌∷◌, if◌then◌else◌}
use linux_dev_note.Common.Int.{ℤ, pos, ltb_ℤ}
use linux_dev_note.Lifecycle.{Held, Loaded, is_zero, release, misc, memory, reserved_page}

-- what misc_register leaves
abbrev pub registered : ℤ → Held → Held
registered result s = if is_zero result then misc ∷ s else s

unfoldable pub misc_init : ℤ → Held → Loaded
misc_init result s = record { ret = result; held = registered result s }

unfoldable pub misc_exit : Held → Held
misc_exit s = release misc s

unfoldable pub queue_init : ℤ → Held → Loaded
queue_init result s =
    if ltb_ℤ result (pos 0)
    then record { ret = result; held = registered result s }
    else record { ret = pos 0; held = registered result s }

unfoldable pub queue_exit : Held → Held
queue_exit s = release misc s

-- The result of misc_register is returned, and the buffer is made whatever it is.
unfoldable pub mmap_init : ℤ → Held → Loaded
mmap_init result s = record { ret = result; held = reserved_page ∷ memory ∷ registered result s }

unfoldable pub mmap_exit : Held → Held
mmap_exit s = release memory (release reserved_page (release misc s))
