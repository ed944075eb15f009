-- ===== src/Lifecycle/Chrdev.antt =====
-- Loading and unloading of the drivers with a character device number:
-- 02-creatDevice/char_dev/char_drv.c, 03-fileOperate/semaphore/semaphore_drv.c,
-- 03-fileOperate/mutex/useMutex/mutex_drv.c (that of unuseMutex is the same text) and
-- 03-fileOperate/fileOperate/RWTest/fileOperate_drv.c.
use linux_dev_note.Common.{Bool, ◌∷◌, if◌then◌else◌}
use linux_dev_note.Common.Int.{ℤ, pos, minus, enobufs, ltb_ℤ}
use linux_dev_note.Lifecycle.{
  Held, Loaded, release, chrdev_region, cdev, cdev_object, class, device_node, memory,
}

-- The object of cdev_alloc is handed to cdev_init, which makes it a cdev of the driver's own: from then
-- on cdev_del takes it out of the kernel and does not free it.
unfoldable pub char_init : Held → Loaded
char_init s = record {
  ret = pos 0;
  held = device_node ∷ class ∷ cdev ∷ cdev_object ∷ chrdev_region ∷ s;
}

unfoldable pub char_exit : Held → Held
char_exit s = release class (release device_node (release chrdev_region (release cdev s)))

unfoldable pub semaphore_init : Held → Loaded
semaphore_init s = record {
  ret = pos 0;
  held = device_node ∷ class ∷ cdev ∷ cdev_object ∷ chrdev_region ∷ s;
}

unfoldable pub semaphore_exit : Held → Held
semaphore_exit s = release class (release device_node (release chrdev_region (release cdev s)))

-- `got` says whether kzalloc returns memory. Its failure is found after all the rest is made.
unfoldable pub mutex_init : Bool → Held → Loaded
mutex_init got s =
    let made = device_node ∷ class ∷ cdev ∷ cdev_object ∷ chrdev_region ∷ s in
    if got
    then record { ret = pos 0; held = memory ∷ made }
    else record { ret = minus enobufs; held = made }

unfoldable pub mutex_exit : Held → Held
mutex_exit s = release class (release device_node (release chrdev_region (release cdev s)))

-- `result` is what register_chrdev returns: nothing is registered where it is negative.
unfoldable pub io_init : ℤ → Held → Loaded
io_init result s =
    if ltb_ℤ result (pos 0)
    then record { ret = result; held = s }
    else record { ret = pos 0; held = chrdev_region ∷ s }

unfoldable pub io_exit : Held → Held
io_exit s = release chrdev_region s
