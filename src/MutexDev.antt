-- ===== src/MutexDev.antt =====
-- The shared-memory character device of 03-fileOperate/mutex/useMutex/mutex_drv.c, one call at a
-- time: `_read`, `_write` and `_llseek`. Logging and the busy waits of `_delay` are left out; they
-- are all in which the two branches of `_write` differ.
pub mod Transfer
pub mod Seek
pub mod Threads
pub mod Locked
pub mod Order
pub mod Serial
pub mod Unlocked
pub mod Inside
pub mod Mixture
pub mod Torn
pub mod Alone
pub mod Progress
pub mod Bounded
pub mod App
pub mod Shared
use linux_dev_note.Common.{
  ℕ, zero, suc, ◌+◌, ◌-◌, ◌%◌, ◌^◌, List, [], ◌∷◌, Option, none, some, ltb, leb, ◌==◌,
  if◌then◌else◌, get_or, set, take, ◌||◌,
}
use linux_dev_note.Common.Int.{ℤ, pos, u32, u64_of, add64, minus, ltb_ℤ, efault, einval}
use linux_dev_note.Common.Bytes.{slice}
use linux_dev_note.UserSpace.{UserBuffer}

-- MEM_SIZE
abbrev pub mem_size : ℕ
mem_size = 128

-- `*sh` with the static `writecount` of `_write`, an `int` as its bit pattern
pub record Share : Type 0 where
  pub mem : List ℕ
  pub writecount : ℕ

-- What a call returns and leaves: its result, `*loff`, and the bytes that reached the user.
pub record Reply : Type 0 where
  pub ret : ℤ
  pub loff : ℤ
  pub out : List ℕ

-- `count`, cut to the bytes from `p` on, for `p < MEM_SIZE`
unfoldable pub clamp_count : ℕ → ℕ → ℕ
clamp_count p cnt = let count = u32 cnt in if ltb (mem_size - p) count then mem_size - p else count

unfoldable pub read : UserBuffer → Share → ℕ → ℤ → Reply
read buff sh cnt loff =
    let p = u64_of loff in
    let count = clamp_count p cnt in
    let left = buff.uncopied count in
    if leb mem_size p
    then record { ret = pos 0; loff = loff; out = [] }
    else if left == 0
    then record { ret = pos count; loff = add64 loff (pos count); out = slice sh.mem p count }
    else record {
      ret = minus efault;
      loff = loff;
      out = take (count - left) (slice sh.mem p count);
    }

-- what a one-byte copy_from_user at `buff + i` leaves in a byte that held `old`
unfoldable pub fetched : UserBuffer → ℕ → ℕ → ℕ
fetched buff i old = elim (buff.fetch i) [ some b ↦ b | none ↦ buff.fault_fill old ]

-- one round of the copy loop of `_write`; a store outside `mem`, which is undefined in C, changes nothing
unfoldable pub copy_byte : UserBuffer → List ℕ → ℕ → ℕ → List ℕ
unfolding fetched
copy_byte buff mem p i = set mem (p + i) (fetched buff i (get_or mem (p + i) 0))

-- the loop from index `i` on, with `n` rounds left
unfoldable pub copy_in : UserBuffer → ℕ → ℕ → ℕ → List ℕ → List ℕ
unfolding copy_byte
copy_in buff p i zero mem = mem
copy_in buff p i (suc n) mem = copy_in buff p (suc i) n (copy_byte buff mem p i)

-- The -EFAULT that a failed copy puts into `ret` is overwritten by `ret = count`.
unfoldable pub write : UserBuffer → Share → ℕ → ℤ → Share × Reply
write buff sh cnt loff =
    let p = u64_of loff in
    let count = clamp_count p cnt in
    let counted = record sh { writecount = (sh.writecount + 1) % 2 ^ 32 } in
    if leb mem_size p then (counted, record { ret = pos 0; loff = loff; out = [] }) else (
      record counted { mem = copy_in buff p 0 count sh.mem },
      record { ret = pos count; loff = add64 loff (pos count); out = [] },
    )

-- `whence` of `_llseek`; `other` stands for every value but 0, 1 and 2.
pub data Whence : Type 0 where
  seek_set seek_cur seek_end other : Whence

-- `new_pos` after the switch, or `none` where it returns -EINVAL
unfoldable pub new_pos : ℤ → ℤ → Whence → Option ℤ
new_pos f_pos offset Whence.seek_set = some offset
new_pos f_pos offset Whence.seek_cur = some (add64 f_pos offset)
new_pos f_pos offset Whence.seek_end = some (add64 (pos (mem_size - 1)) offset)
new_pos f_pos offset Whence.other = none

-- The result and the new `filp->f_pos`.
unfoldable pub llseek : ℤ → ℤ → Whence → ℤ × ℤ
unfolding new_pos
llseek f_pos offset whence = elim (new_pos f_pos offset whence) [
  | none ↦ (minus einval, f_pos)
  | some p ↦ if ltb_ℤ p (pos 0) || ltb_ℤ (pos mem_size) p then (minus einval, f_pos) else (p, p)
]
