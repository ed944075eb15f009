-- ===== src/MutexDev/Threads.antt =====
-- Many calls of `_read` and `_write` at a time: what each thread is about, and where it stands.
use linux_dev_note.Common.{ℕ, Bool, true, false, List}
use linux_dev_note.UserSpace.{UserBuffer}

-- One call, a `_write` or a `_read`, at the position `p`.
pub record Job : Type 0 where
  pub writes : Bool
  pub buff : UserBuffer
  pub cnt : ℕ
  pub p : ℕ

-- Where a thread stands in its call. `copying i` has done `i` rounds of the loop of `_write`.
pub data Pc : Type 0 where
  entering : Pc  -- before mutex_lock
  copying : (i : ℕ) → Pc
  reading : Pc  -- before copy_to_user
  skipped : Pc  -- returned 0 at the end of the memory
  wrote : Pc  -- returned from `_write`
  got : (out : List ℕ) → Pc  -- returned from `_read`, with the bytes that reached the user

-- Between mutex_lock and mutex_unlock.
abbrev pub critical : Pc → Bool
critical (Pc.copying i) = true
critical Pc.reading = true
critical _ = false

-- The shared memory, whether `share_mutex` is held, and every thread. A thread that makes no call
-- stays `entering`.
pub record System : Type 0 where
  pub mem : List ℕ
  pub locked : Bool
  pub pc : ℕ → Pc

-- All threads before their calls.
abbrev pub fresh : List ℕ → System
fresh mem = record { mem = mem; locked = false; pc = λ t. Pc.entering }
