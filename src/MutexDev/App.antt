-- ===== src/MutexDev/App.antt =====
-- The program of 03-fileOperate/mutex/useMutex/app.c (that of unuseMutex is the same text): threads 0
-- and 1 write one letter each over the first bytes of the shared memory, and thread 2 reads them.
use linux_dev_note.Common.{ℕ, zero, suc, ◌+◌, Bool, true, false, List, [], ◌∷◌, if◌then◌else◌}
use linux_dev_note.Common.Int.{ℤ}
use linux_dev_note.Lifecycle.{is_zero}
use linux_dev_note.UserSpace.{holding}
use linux_dev_note.MutexDev.{mem_size}
use linux_dev_note.MutexDev.Threads.{Job}

-- RW_BUFF_SIZE
abbrev pub rw_buff_size : ℕ
rw_buff_size = 5

-- `n` bytes `v`
abbrev pub repeated : ℕ → ℕ → List ℕ
repeated zero v = []
repeated (suc n) v = v ∷ repeated n v

-- `wrbuf` of a thread
abbrev pub wrbuf : ℕ → List ℕ
wrbuf tid = repeated rw_buff_size (tid + b'A')

-- What `wirite_share_mem` does to the device, behind the lseek to 0, where its open has given a
-- descriptor: each thread opens a file of its own. The program makes three threads; one of another
-- number would make no transfer, here a read at the end of the memory.
unfoldable pub app_job : ℕ → Job
app_job zero = record { writes = true; buff = holding (wrbuf 0); cnt = rw_buff_size; p = 0 }
app_job (suc zero) = record { writes = true; buff = holding (wrbuf 1); cnt = rw_buff_size; p = 0 }
app_job (suc (suc zero)) = record { writes = false; buff = holding []; cnt = rw_buff_size; p = 0 }
app_job (suc (suc (suc t))) = record { writes = false; buff = holding []; cnt = 0; p = mem_size }

-- NUM_THREADS
abbrev pub num_threads : ℕ
num_threads = 3

-- What `main` comes to: the numbers of the threads made, and whether it ends with exit(-1), which ends
-- those threads too, or waits for them.
pub record Created : Type 0 where
  pub threads : List ℕ
  pub killed : Bool

-- The loop of `main` from `threadid` on, with `n` threads to make: `rc` is what pthread_create returns
-- for each.
unfoldable pub create : (ℕ → ℤ) → ℕ → ℕ → Created
create rc threadid zero = record { threads = []; killed = false }
create rc threadid (suc n) =
    let rest = create rc (suc threadid) n in
    if is_zero (rc threadid)
    then record rest { threads = threadid ∷ rest.threads }
    else record { threads = []; killed = true }

unfoldable pub app_main_threads : (ℕ → ℤ) → Created
app_main_threads rc = create rc 0 num_threads
