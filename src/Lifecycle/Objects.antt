-- ===== src/Lifecycle/Objects.antt =====
-- Loading and unloading of the modules that make other kernel objects: 05-Notifier/notifier.c,
-- 07-kobject/kobject.c, 07-kobject/kset.c and 10-sigaction/kernalSignal.c.
use linux_dev_note.Common.{◌∷◌}
use linux_dev_note.Common.Int.{pos}
use linux_dev_note.Lifecycle.{
  Held, Loaded, release, notifier, timer, kobject_ref, kobject_entry, kset, debugfs_file,
}

unfoldable pub notifier_init : Held → Loaded
notifier_init s = record { ret = pos 0; held = timer ∷ notifier 3 ∷ notifier 2 ∷ notifier 1 ∷ s }

unfoldable pub notifier_exit : Held → Held
notifier_exit s =
    release (notifier 3) (release (notifier 2) (release (notifier 1) (release timer s)))

-- kobject_del removes the directory, and drops no reference.
unfoldable pub kobject_init : Held → Loaded
kobject_init s = record { ret = pos 0; held = kobject_entry ∷ kobject_ref ∷ s }

unfoldable pub kobject_exit : Held → Held
kobject_exit s = release kobject_entry s

unfoldable pub kset_init : Held → Loaded
kset_init s = record { ret = pos 0; held = kset ∷ kset ∷ s }

unfoldable pub kset_exit : Held → Held
kset_exit s = release kset (release kset s)

unfoldable pub signal_init : Held → Loaded
signal_init s = record { ret = pos 0; held = debugfs_file ∷ s }

unfoldable pub signal_exit : Held → Held
signal_exit s = release debugfs_file s
