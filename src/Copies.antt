-- ===== src/Copies.antt =====
-- Files that hold the text of another file once more. Their functions are those of the models of that
-- file: nonblock_ asynchronous/kernalSignal_drv.c and signal_app.c are 10-sigaction/kernalSignal.c and
-- app.c; unuseMutex/mutex_drv.c differs from useMutex/mutex_drv.c only in the calls of mutex_lock and
-- mutex_unlock, which a call that runs alone does not notice; unuseMutex/app.c is useMutex/app.c; and
-- the FIFO programs of 03-fileOperate/fileOperate are those of 01-ProcessCtrl, but for O_NONBLOCK, which
-- changes only what read answers.
use linux_dev_note.Common.{ℕ, Bool, List, Option}
use linux_dev_note.Common.Int.{ℤ}
use linux_dev_note.UserSpace.{UserBuffer}
use linux_dev_note.Lifecycle.{Held, Loaded}
use linux_dev_note.Lifecycle.Objects.{signal_init, signal_exit}
use linux_dev_note.Lifecycle.Chrdev.{mutex_init, mutex_exit}
use linux_dev_note.SignalDev.{Calls, Outcome, SigInfo, write_pid, app_main, receive_data}
use linux_dev_note.MutexDev
use linux_dev_note.MutexDev.{Share, Reply, Whence}
use linux_dev_note.MutexDev.Threads.{Job}
use linux_dev_note.MutexDev.App.{app_job, Created, app_main_threads}
use linux_dev_note.FileOps.{FileOps}
use linux_dev_note.FileOps.Tables.{mutex_open, mutex_release, mutex_fops}
use linux_dev_note.Fifo
use linux_dev_note.Fifo.{WriteAnswer, WriterRun, ReadAnswer, ReaderRun}

-- 03-fileOperate/fileOperate/nonblock_ asynchronous
abbrev nonblock_write_pid : Calls → List ℕ → List ℕ → ℕ → Outcome
nonblock_write_pid = write_pid

abbrev nonblock_signal_init : Held → Loaded
nonblock_signal_init = signal_init

abbrev nonblock_signal_exit : Held → Held
nonblock_signal_exit = signal_exit

abbrev nonblock_app_main : Calls → ℤ → List ℕ → ℕ → ℤ × Option Outcome
nonblock_app_main = app_main

abbrev nonblock_receive_data : ℕ → SigInfo → ℕ × ℕ
nonblock_receive_data = receive_data

-- 03-fileOperate/mutex/unuseMutex
abbrev unuse_read : UserBuffer → Share → ℕ → ℤ → Reply
unuse_read = MutexDev.read

abbrev unuse_write : UserBuffer → Share → ℕ → ℤ → Share × Reply
unuse_write = MutexDev.write

abbrev unuse_llseek : ℤ → ℤ → Whence → ℤ × ℤ
unuse_llseek = MutexDev.llseek

abbrev unuse_open : Share → ℤ × Share
unuse_open = mutex_open

abbrev unuse_release : Share → ℤ × Share
unuse_release = mutex_release

abbrev unuse_fops : FileOps Share
unuse_fops = mutex_fops

abbrev unuse_init : Bool → Held → Loaded
unuse_init = mutex_init

abbrev unuse_exit : Held → Held
unuse_exit = mutex_exit

abbrev unuse_app_job : ℕ → Job
unuse_app_job = app_job

abbrev unuse_app_main : (ℕ → ℤ) → Created
unuse_app_main = app_main_threads

-- 03-fileOperate/fileOperate/block_ synchronous, nonblock_ synchronous and block_ asynchronous
abbrev block_reader_main : Bool → List ReadAnswer → ReaderRun
block_reader_main = Fifo.reader_main

abbrev nonblock_reader_main : Bool → List ReadAnswer → ReaderRun
nonblock_reader_main = Fifo.reader_main

abbrev block_writer_main : (List ℕ → WriteAnswer) → List ℕ → Option (List ℕ) → WriterRun
block_writer_main = Fifo.writer_main

abbrev nonblock_writer_main : (List ℕ → WriteAnswer) → List ℕ → Option (List ℕ) → WriterRun
nonblock_writer_main = Fifo.writer_main

abbrev select_writer_main : (List ℕ → WriteAnswer) → List ℕ → Option (List ℕ) → WriterRun
select_writer_main = Fifo.writer_main
