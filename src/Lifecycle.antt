-- ===== src/Lifecycle.antt =====
-- What the modules ask of the kernel when they are loaded, and give back when they are unloaded:
-- an account of the kernel objects obtained and not yet given back, the newest first. The answers
-- of the kernel that the code tests are arguments; where it tests none, the calls are taken to
-- succeed, but for misc_register in the `my_probe` of 06-bus/driver.c, whose answer is an argument too.
pub mod Chrdev
pub mod Misc
pub mod Block
pub mod Bus
pub mod Objects
pub mod Bag
pub mod Modules
pub mod Needs
pub mod Together
pub mod Probed
pub mod Account
pub mod Tidy
use linux_dev_note.Common.{ℕ, ◌+◌, Bool, true, false, List, [], ◌∷◌, if◌then◌else◌, ltb, ◌==◌}
use linux_dev_note.Common.Int.{ℤ, pos, negsuc}

pub data Resource : Type 0 where
  chrdev_region : Resource  -- alloc_chrdev_region, register_chrdev
  cdev_object : Resource  -- cdev_alloc
  cdev : Resource  -- cdev_add
  class : Resource  -- class_create
  device_node : Resource  -- device_create
  memory : Resource  -- kmalloc, kzalloc
  misc : Resource  -- misc_register
  misc_321 : Resource  -- misc_register in `my_probe` of 06-bus/driver.c
  reserved_page : Resource  -- SetPageReserved
  request_queue : Resource  -- blk_init_queue
  disk : Resource  -- alloc_disk
  live_disk : Resource  -- add_disk
  bus : Resource  -- bus_register
  device : Resource  -- device_register
  platform_device : Resource  -- platform_device_alloc
  live_platform_device : Resource  -- platform_device_add
  platform_driver : Resource  -- platform_driver_register
  driver : Resource  -- driver_register
  debugfs_file : Resource  -- debugfs_create_file
  kset : Resource  -- kset_register
  kobject_ref : Resource  -- the reference that kobject_init_and_add gives
  kobject_entry : Resource  -- the directory that it makes
  notifier : ℕ → Resource  -- raw_notifier_chain_register of the block of that number
  timer : Resource  -- add_timer

abbrev pub index : Resource → ℕ
index chrdev_region = 0
index cdev = 1
index class = 2
index device_node = 3
index memory = 4
index misc = 5
index reserved_page = 6
index request_queue = 7
index disk = 8
index live_disk = 9
index bus = 10
index misc_321 = 11
index device = 12
index platform_device = 13
index live_platform_device = 14
index platform_driver = 15
index driver = 16
index debugfs_file = 17
index kset = 18
index kobject_ref = 19
index kobject_entry = 20
index timer = 21
index cdev_object = 22
index (notifier n) = 23 + n

abbrev pub same : Resource → Resource → Bool
same a b =
    if ltb (index a) (index b) then false else if ltb (index b) (index a) then false else true

abbrev pub Held : Type 0
Held = List Resource

-- Giving back the newest object of a kind.
abbrev pub release : Resource → Held → Held
release r [] = []
release r (x ∷ xs) = if same x r then xs else x ∷ release r xs

abbrev pub is_zero : ℤ → Bool
is_zero (pos n) = n == 0
is_zero (negsuc n) = false

-- What loading a module returns and leaves.
pub record Loaded : Type 0 where
  pub ret : ℤ
  pub held : Held
