-- ===== src/QueueDev/Calls.antt =====
-- The calls of 04-queue_wait/queue_wait_dev.c interleaved: a reader may be stopped between its test
-- of `havedata` and the reset, which nothing holds together.
use linux_dev_note.Common.{ℕ, suc, ◌<◌, ◌≡◌, Bool, List, [], some, update}
use linux_dev_note.Common.Int.{ℤ}
use linux_dev_note.UserSpace.{UserBuffer}
use linux_dev_note.QueueDev.{Dev, Reply, consume, attempt, passes, fails, sleeps, write}

-- One call of `example_read`.
pub record Call : Type 0 where
  pub nonblock : Bool
  pub buf : UserBuffer
  pub size : ℕ

-- Where a reader stands.
pub data Pc : Type 0 where
  testing : Pc  -- at the test of the `while`
  asleep : Pc  -- in wait_event_interruptible
  passed : Pc  -- behind the loop, before `havedata=0`
  returned : ℤ → List ℕ → Pc

-- The device, the readers, and two counts: the writes and the reads that have got as far as data.
pub record System : Type 0 where
  pub dev : Dev
  pub pc : ℕ → Pc
  pub writes : ℕ
  pub taken : ℕ

-- `n` readers, and any number of writers, each write a step of its own. A sleeping reader is woken
-- by wake_up or by a signal, and tests again.
pub data Step (n : ℕ) (call : ℕ → Call) (s : System) : System → Type 0 where
  writer :
      (buf : UserBuffer) (size : ℕ) (r : Reply)
      → write buf s.dev size ≡ some r
      → Step n call s (record s { dev = r.dev; writes = suc s.writes })
  pass :
      (t : ℕ)
      → t < n
      → s.pc t ≡ testing
      → attempt (call t).nonblock s.dev ≡ passes
      → Step n call s (record s { pc = update s.pc t passed })
  fail :
      (t : ℕ) (e : ℤ)
      → t < n
      → s.pc t ≡ testing
      → attempt (call t).nonblock s.dev ≡ fails e
      → Step n call s (record s { pc = update s.pc t (returned e []) })
  sleep :
      (t : ℕ)
      → t < n
      → s.pc t ≡ testing
      → attempt (call t).nonblock s.dev ≡ sleeps
      → Step n call s (record s { pc = update s.pc t asleep })
  wake : (t : ℕ) → t < n → s.pc t ≡ asleep → Step n call s (record s { pc = update s.pc t testing })
  taking :
      (t : ℕ) (r : Reply)
      → t < n
      → s.pc t ≡ passed
      → consume (call t).buf s.dev (call t).size ≡ some r
      → Step n call s
          (record s { dev = r.dev; pc = update s.pc t (returned r.ret r.out); taken = suc s.taken })

abbrev pub fresh : Dev → System
fresh dev = record { dev = dev; pc = λ t. testing; writes = 0; taken = 0 }

pub data Reach (n : ℕ) (call : ℕ → Call) (dev : Dev) : System → Type 0 where
  start : Reach n call dev (fresh dev)
  later : {s u : System} → Reach n call dev s → Step n call s u → Reach n call dev u
