-- ===== src/Lib.antt =====
-- The drivers and programs of a Linux device-driver notebook: small kernel modules, each about one
-- mechanism of the kernel, with the user programs that exercise them. The modules share no state
-- with one another; a module and its program meet in the system calls on the module's device.
--
-- The model is of the C code itself. What the code calls of the kernel and of the C library is a
-- parameter: user memory (UserSpace.antt), the file layer (FileOps.antt), the block layer
-- (BlockDev/Layer.antt), the macros of ioctl.h (IoctlDev.antt), string.h (BusDev.antt), pipes and
-- FIFOs (Pipe/Layer.antt), the message queue (MsgQueue.antt), the notifier chain
-- (Notifier/Chain.antt), ksets (Sysfs/Uevent.antt), number conversion and signals (SignalDev.antt),
-- and the results of the registration calls (Lifecycle.antt). Of the formatting and copying
-- functions of the C library, strcpy, memcpy and sprintf of a string are written out as byte copies.
-- Numbers are natural numbers with the wrap-around of the C type written out, signed ones are those
-- of Common/Int.antt. Logging and delays are left out.
--
-- Files and what they model:
--   Common, Common/*: lists, byte arrays, C integers, error numbers, shared by all.
--   CopyLoop: the loop of example_write in 03-fileOperate/fileOperate/RWTest/fileOperate_drv.c and
--     04-queue_wait/queue_wait_dev.c.
--   BlockDev, BlockDev/*: 12-block_device/block_device.c, simp_blkdev_do_request; serve is one
--     round of its while, read_loop and write_loop its inner loops, and a list of requests stands
--     for what blk_fetch_request yields.
--   MutexDev, MutexDev/Transfer, /Seek: 03-fileOperate/mutex/useMutex/mutex_drv.c, one call of
--     _read, _write and _llseek at a time.
--   MutexDev/Threads, /Locked, /Order, /Serial, /Progress, /Bounded: the same with any number of calls
--     interleaved, a step for each stretch of code between two points where another thread may
--     run.
--   MutexDev/Unlocked, /Mixture, /Torn: 03-fileOperate/mutex/unuseMutex/mutex_drv.c, the same
--     without mutex.
--   MutexDev/Alone: a call of that driver before any other begins. MutexDev/Inside: where both
--     drivers store.
--   MutexDev/App, /Shared: 03-fileOperate/mutex/useMutex/app.c over the driver with the mutex.
--   IoTest, IoTest/Cat, /Append, /Stale: fileOperate_drv.c in 03-fileOperate/fileOperate/RWTest, its
--     example_read and example_write, and clients that read to the end.
--   IoTest/Calls, /Race, /Single: example_read of that file with any number of calls interleaved.
--   IoTest/Mixed, /Inside, /Underrun, /Rounds: the same readers among the steps of one example_write.
--   IoTest/Programs: write_app.c and read_app.c of the same directory.
--   QueueDev, QueueDev/Transfer, /Calls, /Race, /Progress: 04-queue_wait/queue_wait_dev.c; attempt is
--     a round of the while of example_read, consume what follows it, and Calls interleaves calls
--     there. QueueDev/Bytes, QueueDev/Bytes/*: the same with the loop of example_write cut as well.
--   QueueDev/Programs: write.c and read.c of 04-queue_wait.
--   SemaphoreDev, SemaphoreDev/Count: 03-fileOperate/semaphore/semaphore_drv.c.
--   IoctlDev, IoctlDev/Session, /Program: 02-creatDevice/char_dev/char_drv.c, its handlers, and app.c
--     beside it. MiscDev: the handlers of 02-creatDevice/misc_dev/misc_drv.c.
--   FileOps, FileOps/Tables: how a program's calls reach the handlers of a driver, and the
--     file_operations of the drivers. FileOps/Flat, /Step, /Refine: sessions on
--     03-fileOperate/mutex/useMutex/mutex_drv.c. FileOps/CharApp: 02-creatDevice/char_dev/app.c on its
--     driver. FileOps/EchoCat: echo and cat on 03-fileOperate/fileOperate/RWTest/fileOperate_drv.c.
--   SignalDev, SignalDev/Session: 10-sigaction/kernalSignal.c and 10-sigaction/app.c.
--   MmapDev, MmapDev/Session: 11-mmap/mmap_drv.c and 11-mmap/mmap_app.c.
--   Lifecycle, Lifecycle/*: what the init and exit functions of the modules take and give back, in
--     02-creatDevice, 03-fileOperate, 04-queue_wait, 05-Notifier, 06-bus, 07-kobject, 08-platform,
--     10-sigaction, 11-mmap and 12-block_device. Modules lets them be loaded and unloaded in any order,
--     each kernel call that an init function tests answering 0 or a negative error, and has the kernel
--     call my_probe and my_remove of 06-bus/driver.c; Together and Probed are about these two, and Bag,
--     Needs, Account and Tidy count what is held.
--   BusDev, BusDev/Match: my_match of 06-bus/bus.c. BusDev/Handlers: handlers of 06-bus, 07-kobject
--     and 08-platform that only log. BusDev/Binding: the three modules of 06-bus loaded and unloaded in
--     any order.
--   Notifier, Notifier/Ticks: notifier_function of 05-Notifier/notifier.c. Notifier/Chain: the three
--     blocks of that file. Notifier/Unload: its exit while the timer function runs.
--   Sysfs, Sysfs/Show: the attribute files of 06-bus and of 07-kobject/kobject.c. Sysfs/Uevent: the
--     events of 07-kobject/kset.c.
--   Pipe, Pipe/*: 01-ProcessCtrl/pipe_rw.c, parent and child interleaved call by call.
--   Fifo, Fifo/*: fifo_write.c and fifo_Read.c of 01-ProcessCtrl, and fifoRead_selectBlock.c of
--     03-fileOperate/fileOperate.
--   MsgQueue, MsgQueue/Session, /Program: 01-ProcessCtrl/Mesge_queues_RW.c.
--   Shm, Shm/Session: 01-ProcessCtrl/shareMemery_shm.c.
--   Sigint, Sigint/Race: 01-ProcessCtrl/mysignal.c, a step for each of its calls and for each signal.
--   Thread, Thread/Lines: 01-ProcessCtrl/pthread.c, its two threads interleaved.
--   Tcp, Tcp/Session: 09-TCP/tcp_server.c and 09-TCP/tcp_client.c.
--   Copies: the files whose text is that of another.
--   Tests, Tests/*: runs at concrete inputs, and concrete parameters.
--
-- Bounds and fuel: the inner loops of the RAM disk run on fuel, and so does reading to the end
-- (IoTest/Cat.antt, FileOps/EchoCat.antt); the theorems ask for more fuel than the request or the
-- device has bytes, and each round takes at least one. All other loops recurse on their number of
-- rounds. An access behind the end of an array is a result of its own: `none` in IoTest, QueueDev
-- and the strings of Common/CString.antt, `overran` or `overrun` in Tcp and Fifo; in IoTest/Calls and
-- IoTest/Mixed it is no step. In MutexDev a store behind the memory would change nothing, and
-- MutexDev/Inside is about where the loop stores.
--
-- Not modelled: what the programs print about errors, the delays, and two writes to the buffer device
-- of 03-fileOperate at the same time: IoTest/Mixed has one. What the system calls of the
-- programs in Fifo, Shm, Tcp and MsgQueue/Program answer is an argument: a list of answers stands
-- for the calls of an endless loop. Which of a pipe's ends are open follows from where the two
-- processes of Pipe stand.
pub mod Common
pub mod UserSpace
pub mod MutexDev
pub mod BlockDev
pub mod Pipe
pub mod Fifo
pub mod Tcp
pub mod MsgQueue
pub mod Shm
pub mod Sysfs
pub mod CopyLoop
pub mod IoTest
pub mod QueueDev
pub mod Lifecycle
pub mod IoctlDev
pub mod SemaphoreDev
pub mod SignalDev
pub mod MmapDev
pub mod BusDev
pub mod Notifier
pub mod Tests
pub mod Copies
pub mod MiscDev
pub mod Sigint
pub mod Thread
pub mod FileOps
