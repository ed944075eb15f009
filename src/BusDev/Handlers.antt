-- ===== src/BusDev/Handlers.antt =====
-- Handlers that log and keep no state: those of the misc device that my_driver of 06-bus/driver.c
-- registers, the release handlers of 06-bus/bus.c, 06-bus/device.c and 07-kobject/kobject.c, and probe
-- and remove of 08-platform/driver.c.
use linux_dev_note.Common.{ℕ, List, [], ◌∷◌}
use linux_dev_note.Common.Int.{ℤ, pos}

-- the lines logged
pub data Entry : Type 0 where
  said_open said_release said_read said_write : Entry  -- the misc device
  said_bus_release said_obj_release : Entry
  said_found said_unplugged : Entry  -- the platform driver

-- Each handler: its result, and its line.
unfoldable pub misc_open : ℤ × Entry
misc_open = (pos 0, Entry.said_open)

unfoldable pub misc_release : ℤ × Entry
misc_release = (pos 0, Entry.said_release)

unfoldable pub misc_read : ℕ → ℤ × Entry
misc_read size = (pos 0, Entry.said_read)

-- It takes no byte, and says that it has taken all.
unfoldable pub misc_write : ℕ → ℤ × Entry
misc_write size = (pos size, Entry.said_write)

-- The release handlers return nothing; that of the device has no body.
unfoldable pub my_bus_release : List Entry
my_bus_release = Entry.said_bus_release ∷ []

unfoldable pub my_dev_release : List Entry
my_dev_release = []

unfoldable pub obj_test_release : List Entry
obj_test_release = Entry.said_obj_release ∷ []

-- 08-platform/driver.c
unfoldable pub platform_probe : ℤ × Entry
platform_probe = (pos 0, Entry.said_found)

unfoldable pub platform_remove : ℤ × Entry
platform_remove = (pos 0, Entry.said_unplugged)
