-- ===== src/IoctlDev.antt =====
-- The ioctl handler of 02-creatDevice/char_dev/char_drv.c and the program that calls it,
-- 02-creatDevice/char_dev/app.c. The macros of linux/ioctl.h are an interface. `_ioctl` has no
-- return statement behind its switch: the value it then returns is an argument.
pub mod Session
pub mod Program
use linux_dev_note.Common.{
  ℕ, ◌<◌, ◌≡◌, Bool, true, false, List, [], ◌∷◌, ltb, ◌==◌, not, if◌then◌else◌,
}
use linux_dev_note.Common.Int.{ℤ, minus, enotty}

-- What the drivers use of linux/ioctl.h: a command is made of a type and a number by the macro for
-- its direction, with the size of its argument's type, and _IOC_TYPE and _IOC_NR read them.
pub record IoctlCode : Type 0 where
  pub io : ℕ → ℕ → ℕ  -- _IO(type, nr)
  pub iow : ℕ → ℕ → ℕ → ℕ  -- _IOW(type, nr, size)
  pub ior : ℕ → ℕ → ℕ → ℕ  -- _IOR(type, nr, size)
  pub iowr : ℕ → ℕ → ℕ → ℕ  -- _IOWR(type, nr, size)
  pub ioc_type : ℕ → ℕ
  pub ioc_nr : ℕ → ℕ

-- The two fields are read back, for values of a byte.
pub record IsIoctlCode (c : IoctlCode) : Type 0 where
  pub type_io : (t n : ℕ) → t < 256 → n < 256 → c.ioc_type (c.io t n) ≡ t
  pub nr_io : (t n : ℕ) → t < 256 → n < 256 → c.ioc_nr (c.io t n) ≡ n
  pub type_iow : (t n z : ℕ) → t < 256 → n < 256 → c.ioc_type (c.iow t n z) ≡ t
  pub nr_iow : (t n z : ℕ) → t < 256 → n < 256 → c.ioc_nr (c.iow t n z) ≡ n
  pub type_ior : (t n z : ℕ) → t < 256 → n < 256 → c.ioc_type (c.ior t n z) ≡ t
  pub nr_ior : (t n z : ℕ) → t < 256 → n < 256 → c.ioc_nr (c.ior t n z) ≡ n
  pub type_iowr : (t n z : ℕ) → t < 256 → n < 256 → c.ioc_type (c.iowr t n z) ≡ t
  pub nr_iowr : (t n z : ℕ) → t < 256 → n < 256 → c.ioc_nr (c.iowr t n z) ≡ n

-- MAGIC_NUMBER and _IOCTL_MAXNR
abbrev pub magic_number : ℕ
magic_number = b'C'

abbrev pub ioctl_maxnr : ℕ
ioctl_maxnr = 8

-- What `_ioctl` logs.
pub data Log : Type 0 where
  cmd_error number_error executed written was_read read_written default : Log

module _ (c : IoctlCode) where
  -- `_EXECUTE`, `_WRITE`, `_READ` and `_RW`; an `int` has four bytes
  abbrev pub execute : ℕ
  execute = c.io magic_number 1

  abbrev pub write : ℕ
  write = c.iow magic_number 6 4

  abbrev pub read : ℕ
  read = c.ior magic_number 2 4

  abbrev pub rw_both : ℕ
  rw_both = c.iowr magic_number 7 4

  -- the switch of `_ioctl`
  unfoldable pub dispatch : ℕ → Log
  dispatch cmd =
      if cmd == execute
      then Log.executed
      else if cmd == write
      then Log.written
      else if cmd == read
      then Log.was_read
      else if cmd == rw_both
      then Log.read_written
      else Log.default

  -- `garbage` is what a call returns that falls off the end of `_ioctl`.
  unfoldable pub ioctl : ℤ → ℕ → ℤ × Log
  ioctl garbage cmd =
      if not (c.ioc_type cmd == magic_number)
      then (minus enotty, Log.cmd_error)
      else if ltb ioctl_maxnr (c.ioc_nr cmd)
      then (minus enotty, Log.number_error)
      else (garbage, dispatch cmd)

  -- the calls of `main` in app.c, in order, with what the driver returns for each
  unfoldable pub app_log : ℤ → List (ℤ × Log)
  app_log garbage =
      ioctl garbage execute ∷ ioctl garbage write ∷ ioctl garbage read ∷ ioctl garbage rw_both ∷ []
