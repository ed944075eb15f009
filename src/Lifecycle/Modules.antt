-- ===== src/Lifecycle/Modules.antt =====
-- The modules of the notebook as insmod and rmmod see them: loaded and unloaded in any order, also
-- those that the symbols one module takes from another rule out, by the init and exit functions of
-- the other files of this directory, and by the calls of `my_probe` and `my_remove` of 06-bus/driver.c
-- that the kernel makes where a device and its driver meet.
use linux_dev_note.Common.{
  ℕ, Bool, true, false, List, [], ◌∷◌, if◌then◌else◌, ◌||◌, ◌&&◌, ◌==◌, Option, none, some,
}
use linux_dev_note.Common.Int.{ℤ, pos, negsuc}
use linux_dev_note.Lifecycle.{Held, Loaded, is_zero}
use linux_dev_note.Lifecycle.Chrdev.{
  char_init, char_exit, semaphore_init, semaphore_exit, mutex_init, mutex_exit, io_init, io_exit,
}
use linux_dev_note.Lifecycle.Misc.{
  misc_init, misc_exit, queue_init, queue_exit, mmap_init, mmap_exit,
}
use linux_dev_note.Lifecycle.Block.{block_init, block_exit}
use linux_dev_note.Lifecycle.Objects.{
  notifier_init, notifier_exit, kobject_init, kobject_exit, kset_init, kset_exit, signal_init,
  signal_exit,
}
use linux_dev_note.Lifecycle.Bus.{
  bus_device_init, bus_device_exit, bus_driver_init, bus_driver_exit, probe, remove, bus_init,
  bus_exit, platform_device_init, platform_device_exit, platform_driver_init, platform_driver_exit,
}

pub data Module : Type 0 where
  char_drv misc_drv file_operate_drv mutex_drv semaphore_drv queue_wait_dev notifier_module
        bus_module bus_device bus_driver kobject_module kset_module platform_device platform_driver
        kernal_signal mmap_drv block_device :
      Module

-- What a kernel call that the code tests answers: 0 or an object, or a negative error.
pub data Answer : Type 0 where
  succeeds : Answer
  fails : ℕ → Answer

abbrev pub result : Answer → ℤ
result succeeds = pos 0
result (fails e) = negsuc e

abbrev pub gives : Answer → Bool
gives succeeds = true
gives (fails e) = false

-- Loading a module, where its first and its second call that it tests answer `a` and `b`.
abbrev pub load : Module → Answer → Answer → Held → Loaded
load char_drv a b s = char_init s
load misc_drv a b s = misc_init (result a) s
load file_operate_drv a b s = io_init (result a) s
load mutex_drv a b s = mutex_init (gives a) s
load semaphore_drv a b s = semaphore_init s
load queue_wait_dev a b s = queue_init (result a) s
load notifier_module a b s = notifier_init s
load bus_module a b s = bus_init (result a) (result b) s
load bus_device a b s = bus_device_init s
load bus_driver a b s = bus_driver_init s
load kobject_module a b s = kobject_init s
load kset_module a b s = kset_init s
load platform_device a b s = platform_device_init (result a) s
load platform_driver a b s = platform_driver_init (result a) s
load kernal_signal a b s = signal_init s
load mmap_drv a b s = mmap_init (result a) s
load block_device a b s = block_init (gives a) (gives b) s

abbrev pub unload : Module → Held → Held
unload char_drv s = char_exit s
unload misc_drv s = misc_exit s
unload file_operate_drv s = io_exit s
unload mutex_drv s = mutex_exit s
unload semaphore_drv s = semaphore_exit s
unload queue_wait_dev s = queue_exit s
unload notifier_module s = notifier_exit s
unload bus_module s = bus_exit s
unload bus_device s = bus_device_exit s
unload bus_driver s = bus_driver_exit s
unload kobject_module s = kobject_exit s
unload kset_module s = kset_exit s
unload platform_device s = platform_device_exit s
unload platform_driver s = platform_driver_exit s
unload kernal_signal s = signal_exit s
unload mmap_drv s = mmap_exit s
unload block_device s = block_exit s

abbrev pub number : Module → ℕ
number char_drv = 0
number misc_drv = 1
number file_operate_drv = 2
number mutex_drv = 3
number semaphore_drv = 4
number queue_wait_dev = 5
number notifier_module = 6
number bus_module = 7
number bus_device = 8
number bus_driver = 9
number kobject_module = 10
number kset_module = 11
number platform_device = 12
number platform_driver = 13
number kernal_signal = 14
number mmap_drv = 15
number block_device = 16

-- whether a module is among those loaded
abbrev pub has : Module → List Module → Bool
has m [] = false
has m (x ∷ xs) = number m == number x || has m xs

abbrev pub without : Module → List Module → List Module
without m [] = []
without m (x ∷ xs) = if number m == number x then xs else x ∷ without m xs

-- What is held, the modules loaded, and whether the device and the driver of 06-bus are bound, with
-- what misc_register answered in the `my_probe` that bound them.
pub record Kernel : Type 0 where
  pub held : Held
  pub loaded : List Module
  pub bound : Option Answer

abbrev pub with_bus : Module → Bool
with_bus bus_device = true
with_bus bus_driver = true
with_bus m = false

-- The kernel calls `my_probe` for a device that no driver has, and binds it where that returns 0.
unfoldable pub probe_free : Answer → List Module → Option Answer → Held → Kernel
probe_free a ms (some x) s = record { held = s; loaded = ms; bound = some x }
probe_free a ms none s =
    let probed = probe (result a) s in
    record { held = probed.held; loaded = ms; bound = if is_zero probed.ret then some a else none }

abbrev pub both_there : List Module → Bool
both_there ms = has bus_device ms && has bus_driver ms

-- Behind the load of either module: with both there, whose names agree, `my_match` says yes.
unfoldable pub attach : Module → Answer → List Module → Option Answer → Held → Kernel
unfolding probe_free
attach m a ms bound s =
    if with_bus m && both_there ms
    then probe_free a ms bound s
    else record { held = s; loaded = ms; bound = bound }

-- Before the unload of either, the kernel calls `my_remove` where they are bound.
unfoldable pub remove_bound : List Module → Option Answer → Held → Kernel
remove_bound ms none s = record { held = s; loaded = ms; bound = none }
remove_bound ms (some x) s = record { held = remove s; loaded = ms; bound = none }

unfoldable pub detach : Module → List Module → Option Answer → Held → Kernel
unfolding remove_bound
detach m ms bound s =
    if with_bus m then remove_bound ms bound s else record { held = s; loaded = ms; bound = bound }

pub data Event : Type 0 where
  loads : Module → Answer → Answer → Event
  unloads : Module → Event

-- insmod refuses a module that is loaded, and rmmod one that is not. A module whose init function
-- does not return 0 is not loaded. For bus_device and bus_driver the first answer is that of
-- misc_register, where their load makes the kernel call `my_probe`.
unfoldable pub happen : Event → Kernel → Kernel
unfolding attach detach
happen (loads m a b) k =
    if has m k.loaded
    then k
    else let l = load m a b k.held in
      attach m a (if is_zero l.ret then m ∷ k.loaded else k.loaded) k.bound l.held
happen (unloads m) k =
    if has m k.loaded
    then (let d = detach m k.loaded k.bound k.held in
        record { held = unload m d.held; loaded = without m d.loaded; bound = d.bound })
    else k

abbrev pub run : List Event → Kernel → Kernel
run [] k = k
run (e ∷ es) k = run es (happen e k)

-- no module loaded
abbrev pub unused : Kernel
unused = record { held = []; loaded = []; bound = none }
