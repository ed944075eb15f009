-- ===== src/Lifecycle/Needs.antt =====
-- What each module of the notebook holds while it is loaded, and what its load or unload leaves behind.
use linux_dev_note.Common.{◌+◌, ◌≡◌, refl, arith, true, List, [], ◌∷◌, ◌++◌, if◌then◌else◌}
use linux_dev_note.Lifecycle
use linux_dev_note.Lifecycle.{
  Resource, Held, is_zero, chrdev_region, cdev, cdev_object, class, device_node, memory, misc,
  reserved_page, request_queue, disk, live_disk, bus, device, live_platform_device, driver,
  debugfs_file, kset, kobject_ref, kobject_entry, notifier, timer,
}
use linux_dev_note.Lifecycle.Chrdev.{
  char_init, char_exit, semaphore_init, semaphore_exit, mutex_init, mutex_exit, io_init, io_exit,
}
use linux_dev_note.Lifecycle.Misc.{
  misc_init, misc_exit, queue_init, queue_exit, mmap_init, mmap_exit,
}
use linux_dev_note.Lifecycle.Block.{block_init, block_exit, err_init_queue, err_alloc_disk}
use linux_dev_note.Lifecycle.Objects.{
  notifier_init, notifier_exit, kobject_init, kobject_exit, kset_init, kset_exit, signal_init,
  signal_exit,
}
use linux_dev_note.Lifecycle.Bus.{
  bus_device_init, bus_device_exit, bus_driver_init, bus_driver_exit, bus_init, bus_exit,
  platform_device_init, platform_device_exit, platform_driver_init, platform_driver_exit,
}
use linux_dev_note.Lifecycle.Bag.{count, release_all}
use linux_dev_note.Lifecycle.Modules.{
  Module, char_drv, misc_drv, file_operate_drv, mutex_drv, semaphore_drv, queue_wait_dev,
  notifier_module, bus_module, bus_device, bus_driver, kobject_module, kset_module, platform_device,
  platform_driver, kernal_signal, mmap_drv, block_device, Answer, succeeds, fails, load, unload,
}

abbrev five : Held
five = device_node ∷ class ∷ cdev ∷ cdev_object ∷ chrdev_region ∷ []

-- What a module holds while it is loaded.
abbrev pub needs : Module → Held
needs char_drv = five
needs misc_drv = misc ∷ []
needs file_operate_drv = chrdev_region ∷ []
needs mutex_drv = memory ∷ five
needs semaphore_drv = five
needs queue_wait_dev = misc ∷ []
needs notifier_module = timer ∷ notifier 3 ∷ notifier 2 ∷ notifier 1 ∷ []
needs bus_module = device ∷ bus ∷ []
needs bus_device = device ∷ []
needs bus_driver = driver ∷ []
needs kobject_module = kobject_entry ∷ kobject_ref ∷ []
needs kset_module = kset ∷ kset ∷ []
needs platform_device = live_platform_device ∷ Lifecycle.platform_device ∷ []
needs platform_driver = Lifecycle.platform_driver ∷ []
needs kernal_signal = debugfs_file ∷ []
needs mmap_drv = reserved_page ∷ memory ∷ misc ∷ []
needs block_device = live_disk ∷ disk ∷ request_queue ∷ []

-- What a load that fails leaves behind, and what an unload does.
abbrev pub left_by_load : Module → Answer → Answer → Held
left_by_load mutex_drv (fails e) b = five
left_by_load mmap_drv (fails e) b = reserved_page ∷ memory ∷ []
left_by_load bus_module succeeds (fails e) = bus ∷ []
left_by_load m a b = []

abbrev pub left_by_unload : Module → Held
left_by_unload char_drv = cdev_object ∷ []
left_by_unload mutex_drv = memory ∷ cdev_object ∷ []
left_by_unload semaphore_drv = cdev_object ∷ []
left_by_unload kobject_module = kobject_ref ∷ []
left_by_unload m = []

abbrev pub owned : List Module → Held
owned [] = []
owned (m ∷ ms) = needs m ++ owned ms

-- A load takes what the module needs, or what its failure leaves.
pub load-takes :
    (m : Module) (a b : Answer) (s : Held)
    → (load m a b s).held
      ≡ (if is_zero (load m a b s).ret then needs m else left_by_load m a b) ++ s
unfolding char_init misc_init io_init mutex_init semaphore_init queue_init notifier_init bus_init
    bus_device_init bus_driver_init kobject_init kset_init platform_device_init platform_driver_init
    signal_init mmap_init block_init err_init_queue err_alloc_disk
load-takes char_drv a b s = refl
load-takes misc_drv succeeds b s = refl
load-takes misc_drv (fails e) b s = refl
load-takes file_operate_drv succeeds b s = refl
load-takes file_operate_drv (fails e) b s = ground arith
load-takes mutex_drv succeeds b s = refl
load-takes mutex_drv (fails e) b s = refl
load-takes semaphore_drv a b s = refl
load-takes queue_wait_dev succeeds b s = refl
load-takes queue_wait_dev (fails e) b s = ground arith
load-takes notifier_module a b s = refl
load-takes bus_module succeeds succeeds s = refl
load-takes bus_module succeeds (fails e) s = refl
load-takes bus_module (fails e) b s = refl
load-takes bus_device a b s = refl
load-takes bus_driver a b s = refl
load-takes kobject_module a b s = refl
load-takes kset_module a b s = refl
load-takes platform_device succeeds b s = refl
load-takes platform_device (fails e) b s = refl
load-takes platform_driver succeeds b s = refl
load-takes platform_driver (fails e) b s = refl
load-takes kernal_signal a b s = refl
load-takes mmap_drv succeeds b s = refl
load-takes mmap_drv (fails e) b s = refl
load-takes block_device succeeds succeeds s = refl
load-takes block_device succeeds (fails e) s = refl
load-takes block_device (fails e) succeeds s = refl
load-takes block_device (fails e) (fails f) s = refl

-- A load that returns 0 leaves nothing behind but what the module needs.
pub loaded-leaves :
    (m : Module) (a b : Answer) (s : Held)
    → is_zero (load m a b s).ret ≡ true
    → left_by_load m a b ≡ []
unfolding mutex_init mmap_init bus_init
loaded-leaves mutex_drv succeeds b s h = refl
loaded-leaves mutex_drv (fails e) b s h = ground arith
loaded-leaves mmap_drv succeeds b s h = refl
loaded-leaves mmap_drv (fails e) b s h = ground arith
loaded-leaves bus_module succeeds succeeds s h = refl
loaded-leaves bus_module succeeds (fails e) s h = ground arith
loaded-leaves bus_module (fails e) b s h = refl
loaded-leaves m a b s h = refl

-- What an unload gives back, in its order.
abbrev pub returned : Module → Held
returned char_drv = cdev ∷ chrdev_region ∷ device_node ∷ class ∷ []
returned misc_drv = misc ∷ []
returned file_operate_drv = chrdev_region ∷ []
returned mutex_drv = cdev ∷ chrdev_region ∷ device_node ∷ class ∷ []
returned semaphore_drv = cdev ∷ chrdev_region ∷ device_node ∷ class ∷ []
returned queue_wait_dev = misc ∷ []
returned notifier_module = timer ∷ notifier 1 ∷ notifier 2 ∷ notifier 3 ∷ []
returned bus_module = device ∷ bus ∷ []
returned bus_device = device ∷ []
returned bus_driver = driver ∷ []
returned kobject_module = kobject_entry ∷ []
returned kset_module = kset ∷ kset ∷ []
returned platform_device = live_platform_device ∷ Lifecycle.platform_device ∷ []
returned platform_driver = Lifecycle.platform_driver ∷ []
returned kernal_signal = debugfs_file ∷ []
returned mmap_drv = misc ∷ reserved_page ∷ memory ∷ []
returned block_device = live_disk ∷ disk ∷ request_queue ∷ []

pub unload-returned : (m : Module) (s : Held) → unload m s ≡ release_all (returned m) s
unfolding char_exit misc_exit io_exit mutex_exit semaphore_exit queue_exit notifier_exit bus_exit
    bus_device_exit bus_driver_exit kobject_exit kset_exit platform_device_exit platform_driver_exit
    signal_exit mmap_exit block_exit
unload-returned m s = elim m as (λ m'. unload m' s ≡ release_all (returned m') s) [
  | char_drv ↦ refl
  | _ ↦ refl
]

-- It gives back all that the module needs but for what it leaves behind.
pub returned-needs :
    (r : Resource) (m : Module)
    → count r (returned m) + count r (left_by_unload m) ≡ count r (needs m)
returned-needs r m =
    elim m as (λ m'. count r (returned m') + count r (left_by_unload m') ≡ count r (needs m')) [
      | char_drv ↦ omega arith
      | _ ↦ omega arith
    ]
