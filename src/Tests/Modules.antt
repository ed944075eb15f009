-- ===== src/Tests/Modules.antt =====
-- Modules loaded and unloaded in turns.
use linux_dev_note.Common.{◌≡◌, refl, List, [], ◌∷◌, ◌++◌}
use linux_dev_note.Lifecycle.{memory, misc, misc_321, device, driver}
use linux_dev_note.Lifecycle.Chrdev.{mutex_init, mutex_exit}
use linux_dev_note.Lifecycle.Misc.{misc_init, queue_init}
use linux_dev_note.Lifecycle.Bus.{bus_init, bus_device_init, bus_driver_init, probe}
use linux_dev_note.Lifecycle.Bag.{count}
use linux_dev_note.Lifecycle.Modules.{
  mutex_drv, queue_wait_dev, bus_module, bus_device, bus_driver, char_drv, misc_drv,
  notifier_module, block_device, succeeds, fails, Event, loads, unloads, happen, run, unused,
}

-- mutex_drv is loaded twice and unloaded once, and the bus fails halfway.
abbrev untidy : List Event
untidy =
    loads mutex_drv succeeds succeeds
    ∷ loads queue_wait_dev succeeds succeeds
    ∷ unloads mutex_drv
    ∷ unloads char_drv
    ∷ loads bus_module succeeds (fails 11)
    ∷ loads mutex_drv succeeds succeeds
    ∷ []

-- The memory of the first load, and that of the second.
two_memories : count memory (run untidy unused).held ≡ 2
unfolding happen mutex_init mutex_exit queue_init bus_init
two_memories = refl

-- The device and the driver of 06-bus, and the device again, where misc_register fails at last.
abbrev plugged : List Event
plugged =
    loads bus_device succeeds succeeds
    ∷ loads misc_drv succeeds succeeds
    ∷ loads bus_driver succeeds succeeds
    ∷ []

plugged_held : (run plugged unused).held ≡ misc_321 ∷ driver ∷ misc ∷ device ∷ []
unfolding happen bus_device_init bus_driver_init misc_init probe
plugged_held = refl

abbrev crossed : List Event
crossed =
    plugged
    ++ unloads bus_device
      ∷ loads notifier_module succeeds succeeds
      ∷ loads bus_device (fails 15) succeeds
      ∷ loads block_device succeeds (fails 11)
      ∷ loads queue_wait_dev (fails 15) succeeds
      ∷ unloads misc_drv
      ∷ unloads bus_driver
      ∷ loads queue_wait_dev succeeds succeeds
      ∷ unloads notifier_module
      ∷ unloads bus_device
      ∷ unloads queue_wait_dev
      ∷ []
