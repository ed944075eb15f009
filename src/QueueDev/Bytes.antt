-- ===== src/QueueDev/Bytes.antt =====
-- The calls of 04-queue_wait/queue_wait_dev.c cut finer than in QueueDev/Calls.antt: example_write
-- behind each part of its loop, which counts with the global `buff_len`, and behind its wake_up, where
-- it waits 200 ms; example_read behind its test, its reset of `havedata` and its copy.
pub mod Bounds
pub mod Rounds
pub mod Reset
pub mod Rivals
use linux_dev_note.Common.{
  ℕ, suc, ◌-◌, ◌≤◌, ◌<◌, ◌≡◌, ◌≢◌, Bool, true, false, List, [], none, some, length, take, get_or,
  set, update,
}
use linux_dev_note.Common.Int.{ℤ, pos, minus, efault}
use linux_dev_note.Common.Bytes.{slice}
use linux_dev_note.UserSpace.{UserBuffer}
use linux_dev_note.QueueDev.{Dev, attempt, passes, fails, sleeps}

-- One call of `example_write`, and one of `example_read`.
pub record WriteCall : Type 0 where
  pub buf : UserBuffer
  pub size : ℕ

pub record ReadCall : Type 0 where
  pub nonblock : Bool
  pub buf : UserBuffer
  pub size : ℕ

-- Where a writer stands; `i` counts how often `buf` has been moved on.
pub data Writer : Type 0 where
  starting : Writer  -- before `buff_len = 0`
  at_test : (i : ℕ) → Writer
  storing : (i : ℕ) → Writer  -- before copy_from_user
  counting : (i : ℕ) → Writer  -- before `++buff_len`
  behind_loop : Writer  -- before `havedata=1`
  delayed : Writer  -- behind wake_up, before `return buff_len`
  returned : (r : ℤ) → Writer

-- Where a reader stands.
pub data Reader : Type 0 where
  testing : Reader
  asleep : Reader
  passed : Reader  -- before `havedata=0`
  copying : Reader
  copied : (out : List ℕ) → Reader  -- before `len=buff_len`
  got : (r : ℤ) (out : List ℕ) → Reader

pub record System : Type 0 where
  pub dev : Dev
  pub writer : ℕ → Writer
  pub reader : ℕ → Reader

module _ (writes : ℕ → WriteCall) (reads : ℕ → ReadCall) where
  -- A step of a writer, from where it stands: the device and where it stands then. A store behind the
  -- end of `byte` is undefined, and no step.
  pub data Writes (t : ℕ) (d : Dev) : Writer → Dev → Writer → Type 0 where
    start : Writes t d starting (record d { buff_len = 0 }) (at_test 0)
    enter : (i : ℕ) → d.buff_len < (writes t).size → Writes t d (at_test i) d (storing i)
    leave : (i : ℕ) → (writes t).size ≤ d.buff_len → Writes t d (at_test i) d behind_loop
    store :
        (i v : ℕ)
        → d.buff_len < length d.byte
        → (writes t).buf.fetch i ≡ some v
        → Writes t d (storing i) (record d { byte = set d.byte d.buff_len v }) (counting (suc i))
    fault :
        (i : ℕ)
        → d.buff_len < length d.byte
        → (writes t).buf.fetch i ≡ none
        → Writes t d
            (storing i)
            (record d {
              byte = set d.byte d.buff_len ((writes t).buf.fault_fill (get_or d.byte d.buff_len 0));
            })
            behind_loop
    count : (i : ℕ) → Writes t d (counting i) (record d { buff_len = suc d.buff_len }) (at_test i)
    wake_up : Writes t d behind_loop (record d { havedata = true }) delayed
    return : Writes t d delayed d (returned (pos d.buff_len))

  -- A step of a reader.
  pub data Reads (t : ℕ) (d : Dev) : Reader → Dev → Reader → Type 0 where
    pass : attempt (reads t).nonblock d ≡ passes → Reads t d testing d passed
    fail : (e : ℤ) → attempt (reads t).nonblock d ≡ fails e → Reads t d testing d (got e [])
    sleep : attempt (reads t).nonblock d ≡ sleeps → Reads t d testing d asleep
    wake : Reads t d asleep d testing
    clear : Reads t d passed (record d { havedata = false }) copying
    copy :
        (reads t).size ≤ length d.byte
        → (reads t).buf.uncopied (reads t).size ≡ 0
        → Reads t d copying d (copied (slice d.byte 0 (reads t).size))
    short :
        (reads t).size ≤ length d.byte
        → (reads t).buf.uncopied (reads t).size ≢ 0
        → Reads t d copying d (
            got (minus efault) (
              take
                ((reads t).size - (reads t).buf.uncopied (reads t).size)
                (slice d.byte 0 (reads t).size)))
    finish :
        (out : List ℕ)
        → Reads t d (copied out) (record d { buff_len = 0 }) (got (pos d.buff_len) out)

  -- A step of the system: `n` writers, and any number of readers.
  pub data Step (n : ℕ) (s : System) : System → Type 0 where
    writer_moves :
        (t : ℕ) (q w : Writer) (d : Dev)
        → t < n
        → s.writer t ≡ q
        → Writes t s.dev q d w
        → Step n s (record s { dev = d; writer = update s.writer t w })
    reader_moves :
        (t : ℕ) (q r : Reader) (d : Dev)
        → s.reader t ≡ q
        → Reads t s.dev q d r
        → Step n s (record s { dev = d; reader = update s.reader t r })

  pub data Run (n : ℕ) (s : System) : System → Type 0 where
    here : Run n s s
    further : {u w : System} → Run n s u → Step n u w → Run n s w

-- All before their calls.
abbrev pub fresh : Dev → System
fresh dev = record { dev = dev; writer = λ t. starting; reader = λ t. testing }
