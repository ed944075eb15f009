-- ===== src/QueueDev.antt =====
-- The blocking device of 04-queue_wait/queue_wait_dev.c: `example_read` waits until a write has set
-- `havedata`. A `_read` is cut at its test: `attempt` is one round of the `while`, and `consume` is
-- what follows the loop. An access outside `byte`, which is undefined in C, is `none`.
pub mod Transfer
pub mod Calls
pub mod Race
pub mod Progress
pub mod Bytes
pub mod Programs
use linux_dev_note.Common.{
  ℕ, ◌-◌, ◌≤◌, ◌+◌, Bool, true, false, List, [], Option, none, some, leb, ◌==◌, if◌then◌else◌,
  length, take,
}
use linux_dev_note.Common.Int.{ℤ, pos, minus, efault, eagain}
use linux_dev_note.Common.Bytes.{slice}
use linux_dev_note.UserSpace.{UserBuffer}
use linux_dev_note.CopyLoop.{store_loop}

-- The globals; `byte` has 100 elements.
pub record Dev : Type 0 where
  pub byte : List ℕ
  pub buff_len : ℕ
  pub havedata : Bool

pub record Reply : Type 0 where
  pub dev : Dev
  pub ret : ℤ
  pub out : List ℕ

-- `example_read` from `havedata=0` on. The copy is of `size` bytes, the result is `buff_len`.
unfoldable pub consume : UserBuffer → Dev → ℕ → Option Reply
consume buf s size =
    let left = buf.uncopied size in
    let cleared = record s { havedata = false } in
    if leb size (length s.byte)
    then some (
        if left == 0
        then record {
          dev = record cleared { buff_len = 0 };
          ret = pos s.buff_len;
          out = slice s.byte 0 size;
        }
        else record {
          dev = cleared;
          ret = minus efault;
          out = take (size - left) (slice s.byte 0 size);
        })
    else none

-- What one round of the `while` of `example_read` comes to.
pub data Attempt : Type 0 where
  passes : Attempt  -- there is data: on to `consume`
  fails : ℤ → Attempt  -- returns with this error
  sleeps : Attempt  -- wait_event_interruptible

unfoldable pub attempt : Bool → Dev → Attempt
attempt nonblock s =
    if s.havedata
    then Attempt.passes
    else if nonblock
    then Attempt.fails (minus eagain)
    else Attempt.sleeps

unfoldable pub write : UserBuffer → Dev → ℕ → Option Reply
write buf s size = elim (store_loop buf 0 size s.byte 0) [
  | none ↦ none
  | some (byte, k) ↦ some (record {
    dev = record { byte = byte; buff_len = k; havedata = true };
    ret = pos k;
    out = [];
  })
]
