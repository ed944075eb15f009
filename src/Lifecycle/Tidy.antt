-- ===== src/Lifecycle/Tidy.antt =====
-- The modules of the notebook that leave nothing behind, loaded and unloaded in any order.
use linux_dev_note.Common.{◌≡◌, Bool, true, false, List, [], ◌∷◌}
use linux_dev_note.Lifecycle.Modules.{
  Module, mutex_drv, mmap_drv, bus_module, kobject_module, Event, loads, unloads, char_drv,
  semaphore_drv,
}

abbrev pub tidy : Module → Bool
tidy char_drv = false
tidy mutex_drv = false
tidy semaphore_drv = false
tidy mmap_drv = false
tidy bus_module = false
tidy kobject_module = false
tidy m = true

abbrev pub about : Event → Module
about (loads m a b) = m
about (unloads m) = m

abbrev pub AllTidy : List Event → Type 0
AllTidy [] = Unit {0}
AllTidy (e ∷ es) = (tidy (about e) ≡ true) × AllTidy es
