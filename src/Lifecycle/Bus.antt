-- ===== src/Lifecycle/Bus.antt =====
-- Loading and unloading of the bus, of its device and of its driver (06-bus), and of the platform
-- device and driver (08-platform/device.c, 08-platform/driver.c). Each argument is what the kernel
-- call of that name returns; a result that is not 0 means that nothing was made.
use linux_dev_note.Common.{◌∷◌, if◌then◌else◌}
use linux_dev_note.Common.Int.{ℤ, pos}
use linux_dev_note.Lifecycle.{
  Held, Loaded, is_zero, release, bus, device, platform_device, live_platform_device,
  platform_driver, driver, misc_321,
}

-- The result of bus_create_file is only logged, and bus_unregister removes the file with the bus.
-- A failure of device_register is returned, and the bus stays.
unfoldable pub bus_init : ℤ → ℤ → Held → Loaded
bus_init bus_register device_register s =
    if is_zero bus_register
    then record {
      ret = device_register;
      held = if is_zero device_register then device ∷ bus ∷ s else bus ∷ s;
    }
    else record { ret = bus_register; held = s }

unfoldable pub bus_exit : Held → Held
bus_exit s = release bus (release device s)

-- 06-bus/device.c; the attribute file goes with the device.
unfoldable pub bus_device_init : Held → Loaded
bus_device_init s = record { ret = pos 0; held = device ∷ s }

unfoldable pub bus_device_exit : Held → Held
bus_device_exit s = release device s

-- 06-bus/driver.c; where the device is there, driver_register calls `my_probe`, which Modules.antt does
-- behind the load of either.
unfoldable pub bus_driver_init : Held → Loaded
bus_driver_init s = record { ret = pos 0; held = driver ∷ s }

unfoldable pub bus_driver_exit : Held → Held
bus_driver_exit s = release driver s

-- It ignores the result of misc_register.
unfoldable pub probe : ℤ → Held → Loaded
probe misc_register s = record {
  ret = pos 0;
  held = if is_zero misc_register then misc_321 ∷ s else s;
}

unfoldable pub remove : Held → Held
remove s = release misc_321 s

unfoldable pub platform_device_init : ℤ → Held → Loaded
platform_device_init added s =
    let allocated = platform_device ∷ s in
    if is_zero added
    then record { ret = added; held = live_platform_device ∷ allocated }
    else record { ret = added; held = release platform_device allocated }

-- platform_device_unregister deletes the device and drops the reference that the allocation gave.
unfoldable pub platform_device_exit : Held → Held
platform_device_exit s = release platform_device (release live_platform_device s)

unfoldable pub platform_driver_init : ℤ → Held → Loaded
platform_driver_init registered s = record {
  ret = registered;
  held = if is_zero registered then platform_driver ∷ s else s;
}

unfoldable pub platform_driver_exit : Held → Held
platform_driver_exit s = release platform_driver s
