-- ===== src/MutexDev/Seek.antt =====
-- `_llseek` of the shared-memory device (03-fileOperate/mutex/useMutex/mutex_drv.c) against exact
-- integers.
use linux_dev_note.Common.{
  ℕ, ◌-◌, ◌≤◌, ◌^◌, ◌≡◌, refl, arith, leb, if◌then◌else◌, Option, some, none,
}
use linux_dev_note.Common.Int.{ℤ, pos, negsuc, minus, einval, ◌+ℤ◌, ◌≤ℤ◌, add64}
use linux_dev_note.MutexDev.{mem_size, Whence, llseek}

-- the position that a seek asks for, as an integer without bound
abbrev pub target : ℕ → ℤ → Whence → Option ℤ
target p offset Whence.seek_set = some offset
target p offset Whence.seek_cur = some (pos p +ℤ offset)
target p offset Whence.seek_end = some (pos (mem_size - 1) +ℤ offset)
target p offset Whence.other = none

-- A `long long`.
abbrev pub IsLoff : ℤ → Type 0
IsLoff z = (negsuc (2 ^ 63 - 1) ≤ℤ z) × (z ≤ℤ pos (2 ^ 63 - 1))

-- A seek goes to its target where that lies in 0..MEM_SIZE; else it fails and stays.
abbrev pub seek_spec : ℕ → Option ℤ → ℤ × ℤ
seek_spec p none = (minus einval, pos p)
seek_spec p (some (negsuc t)) = (minus einval, pos p)
seek_spec p (some (pos t)) = if leb t mem_size then (pos t, pos t) else (minus einval, pos p)

-- From a position in the memory or at its end, and for every offset of the type, `_llseek` moves to
-- the exact integer target where that lies in 0..MEM_SIZE, and returns it; for any other target or
-- `whence` it returns -EINVAL and stays. So no overflow of the sum is taken for a position.
pub llseek_lem :
    (p : ℕ) (offset : ℤ) (whence : Whence)
    → p ≤ mem_size
    → IsLoff offset
    → llseek (pos p) offset whence ≡ seek_spec p (target p offset whence)
unfolding llseek add64
llseek_lem p (pos n) Whence.seek_set h w = ground arith
llseek_lem p (negsuc n) Whence.seek_set h w = ground arith
llseek_lem p (pos n) Whence.seek_cur h w = ground arith
llseek_lem p (negsuc n) Whence.seek_cur h w = ground arith
llseek_lem p (pos n) Whence.seek_end h w = ground arith
llseek_lem p (negsuc n) Whence.seek_end h w = ground arith
llseek_lem p _ Whence.other h w = refl
