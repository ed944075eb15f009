-- ===== src/IoTest.antt =====
-- The buffer device of 03-fileOperate/fileOperate/RWTest/fileOperate_drv.c: `example_read` and
-- `example_write` over its global variables. An access outside `byte`, which is undefined in C, is
-- `none`. Logging is left out.
pub mod Cat
pub mod Append
pub mod Stale
pub mod Calls
pub mod Race
pub mod Single
pub mod Mixed
pub mod Inside
pub mod Underrun
pub mod Rounds
pub mod Programs
use linux_dev_note.Common.{
  ℕ, ◌+◌, ◌-◌, ◌%◌, ◌^◌, ◌≤◌, ◌≡◌, List, [], Option, none, some, ltb, leb, ◌==◌, ◌||◌,
  if◌then◌else◌, length, take,
}
use linux_dev_note.Common.Int.{ℤ, pos, minus, efault}
use linux_dev_note.Common.Bytes.{slice}
use linux_dev_note.UserSpace.{UserBuffer}
use linux_dev_note.CopyLoop.{store_loop}

-- The globals. `postion` is an `int` as its bit pattern; `byte` has 100 elements.
pub record Io : Type 0 where
  pub postion : ℕ
  pub byte : List ℕ
  pub buff_len : ℕ
  pub buff_pos : ℕ

pub record Reply : Type 0 where
  pub io : Io
  pub ret : ℤ
  pub out : List ℕ

-- `example_read` from the copy on, with `rlen` bytes to move
unfoldable pub move_out : UserBuffer → Io → ℕ → ℕ → Option Reply
move_out buf s size rlen =
    let left = buf.uncopied rlen in
    if rlen == 0 || leb (s.postion + rlen) (length s.byte)
    then some (
        if left == 0
        then record {
          io = record s { postion = (s.postion + size) % 2 ^ 32; buff_len = s.buff_len - rlen };
          ret = pos rlen;
          out = slice s.byte s.postion rlen;
        }
        else record {
          io = s;
          ret = minus efault;
          out = take (rlen - left) (slice s.byte s.postion rlen);
        })
    else none

unfoldable pub read : UserBuffer → Io → ℕ → Option Reply
read buf s size =
    if ltb s.buff_len size
    then if s.buff_len == 0
      then some (record { io = record s { postion = 0; buff_pos = 0 }; ret = pos 0; out = [] })
      else move_out buf s size s.buff_len
    else move_out buf s size size

-- The result is `size`, also where the loop was cut short.
unfoldable pub write : UserBuffer → Io → ℕ → Option Reply
write buf s size = elim (store_loop buf 0 size s.byte s.buff_pos) [
  | none ↦ none
  | some (byte, k) ↦ some (record {
    io = record s { byte = byte; buff_len = k; buff_pos = k };
    ret = pos size;
    out = [];
  })
]
