-- ===== src/IoTest/Calls.antt =====
-- Reads of 03-fileOperate/fileOperate/RWTest/fileOperate_drv.c interleaved: example_read is cut behind
-- its test and behind its copy, where nothing keeps another reader out. `buff_len`, an `int`, is its bit
-- pattern here.
use linux_dev_note.Common.{
  ℕ, ◌+◌, ◌-◌, ◌%◌, ◌^◌, ◌≤◌, ◌<◌, ◌≡◌, ◌≢◌, List, [], Option, none, some, ltb, ◌==◌, if◌then◌else◌,
  length, take, update,
}
use linux_dev_note.Common.Int.{ℤ, pos, minus, efault}
use linux_dev_note.Common.Bytes.{slice}
use linux_dev_note.UserSpace.{UserBuffer}
use linux_dev_note.IoTest.{Io}

-- One call of `example_read`.
pub record Call : Type 0 where
  pub buf : UserBuffer
  pub size : ℕ

-- Where a reader stands.
pub data Pc : Type 0 where
  testing : Pc
  copying : ℕ → Pc  -- before copy_to_user, with `rlen`
  copied : ℕ → List ℕ → Pc  -- before `postion+=size`, with `rlen` and the bytes the user has
  returned : ℤ → List ℕ → Pc

pub record System : Type 0 where
  pub dev : Io
  pub pc : ℕ → Pc

-- an `int` as a `size_t`
abbrev pub extended : ℕ → ℕ
extended n = if ltb n (2 ^ 31) then n else n + (2 ^ 64 - 2 ^ 32)

-- `rlen`; `none` where there is nothing to read
abbrev pub chosen : Io → ℕ → Option ℕ
chosen s size =
    if ltb (extended s.buff_len) size
    then if s.buff_len == 0 then none else some (extended s.buff_len)
    else some size

-- Behind the copy: both globals move on.
abbrev pub moved_on : Io → ℕ → ℕ → Io
moved_on s size rlen = record s {
  postion = (s.postion + size) % 2 ^ 32;
  buff_len = (s.buff_len + (2 ^ 32 - rlen % 2 ^ 32)) % 2 ^ 32;
}

-- `n` readers. A copy from outside `byte` is undefined, and no step.
pub data Step (n : ℕ) (call : ℕ → Call) (s : System) : System → Type 0 where
  empty :
      (t : ℕ)
      → t < n
      → s.pc t ≡ testing
      → chosen s.dev (call t).size ≡ none
      → Step n call s (record {
        dev = record s.dev { postion = 0; buff_pos = 0 };
        pc = update s.pc t (returned (pos 0) []);
      })
  choose :
      (t rlen : ℕ)
      → t < n
      → s.pc t ≡ testing
      → chosen s.dev (call t).size ≡ some rlen
      → Step n call s (record s { pc = update s.pc t (copying rlen) })
  copy :
      (t rlen : ℕ)
      → t < n
      → s.pc t ≡ copying rlen
      → s.dev.postion + rlen ≤ length s.dev.byte
      → (call t).buf.uncopied rlen ≡ 0
      → Step n call s
          (record s { pc = update s.pc t (copied rlen (slice s.dev.byte s.dev.postion rlen)) })
  fault :
      (t rlen : ℕ)
      → t < n
      → s.pc t ≡ copying rlen
      → s.dev.postion + rlen ≤ length s.dev.byte
      → (call t).buf.uncopied rlen ≢ 0
      → Step n call s (record s {
        pc = update s.pc t (
            returned
              (minus efault)
              (take (rlen - (call t).buf.uncopied rlen) (slice s.dev.byte s.dev.postion rlen)));
      })
  finish :
      (t rlen : ℕ) (out : List ℕ)
      → t < n
      → s.pc t ≡ copied rlen out
      → Step n call s (record {
        dev = moved_on s.dev (call t).size rlen;
        pc = update s.pc t (returned (pos rlen) out);
      })

-- A run of any number of steps.
pub data Run (n : ℕ) (call : ℕ → Call) (s : System) : System → Type 0 where
  here : Run n call s s
  further : {u w : System} → Run n call s u → Step n call u w → Run n call s w
