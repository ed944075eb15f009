-- ===== src/Lifecycle/Block.antt =====
-- Loading and unloading of 12-block_device/block_device.c. `queue` and `alloc` say whether
-- blk_init_queue and alloc_disk return an object.
use linux_dev_note.Common.{Bool, ◌∷◌, if◌then◌else◌}
use linux_dev_note.Common.Int.{pos, minus, enomem}
use linux_dev_note.Lifecycle.{Held, Loaded, release, request_queue, disk, live_disk}

-- the labels `err_init_queue` and `err_alloc_disk` of `simp_blkdev_init`
unfoldable pub err_init_queue : Held → Loaded
err_init_queue s = record { ret = minus enomem; held = s }

unfoldable pub err_alloc_disk : Held → Loaded
unfolding err_init_queue
err_alloc_disk s = err_init_queue (release request_queue s)

unfoldable pub block_init : Bool → Bool → Held → Loaded
unfolding err_init_queue err_alloc_disk
block_init queue alloc s =
    if queue
    then if alloc
      then record { ret = pos 0; held = live_disk ∷ disk ∷ request_queue ∷ s }
      else err_alloc_disk (request_queue ∷ s)
    else err_init_queue s

unfoldable pub block_exit : Held → Held
block_exit s = release request_queue (release disk (release live_disk s))
