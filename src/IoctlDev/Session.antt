-- ===== src/IoctlDev/Session.antt =====
-- The ioctl calls of 02-creatDevice/char_dev/app.c and the cases of `_ioctl` that they reach.
use linux_dev_note.Common.{ℕ, ◌≤◌, ◌≡◌, ◌≢◌, ap, ◌∙◌, [], ◌∷◌, arith, false, ◌==◌}
use linux_dev_note.Common.Int.{ℤ}
use linux_dev_note.IoctlDev.{
  IoctlCode, IsIoctlCode, Log, magic_number, ioctl_maxnr, execute, write, read, rw_both, dispatch,
  ioctl, app_log,
}

module _ (c : IoctlCode) (law : IsIoctlCode c) where
  -- Two commands with other numbers are other commands.
  apart : {a b m n : ℕ} → c.ioc_nr a ≡ m → c.ioc_nr b ≡ n → m ≢ n → (a == b) ≡ false
  apart {a} {b} ea eb ne = ground (arith, ap c.ioc_nr {x = a} {y = b})

  -- A command with the type 'C', a number up to 8, is dispatched.
  accepted :
      (garbage : ℤ) (cmd n : ℕ)
      → c.ioc_type cmd ≡ magic_number
      → c.ioc_nr cmd ≡ n
      → n ≤ ioctl_maxnr
      → ioctl c garbage cmd ≡ (garbage, dispatch c cmd)
  unfolding ioctl
  accepted garbage cmd n et en h = ground arith

  nr_execute : c.ioc_nr (execute c) ≡ 1
  nr_execute = law.nr_io magic_number 1 (omega arith) (omega arith)

  nr_write : c.ioc_nr (write c) ≡ 6
  nr_write = law.nr_iow magic_number 6 4 (omega arith) (omega arith)

  nr_read : c.ioc_nr (read c) ≡ 2
  nr_read = law.nr_ior magic_number 2 4 (omega arith) (omega arith)

  nr_rw_both : c.ioc_nr (rw_both c) ≡ 7
  nr_rw_both = law.nr_iowr magic_number 7 4 (omega arith) (omega arith)

  call_execute : (garbage : ℤ) → ioctl c garbage (execute c) ≡ (garbage, Log.executed)
  unfolding dispatch
  call_execute garbage =
      accepted garbage (execute c) 1 (law.type_io magic_number 1 (omega arith) (omega arith))
        nr_execute (omega arith)
      ∙ ground arith

  call_write : (garbage : ℤ) → ioctl c garbage (write c) ≡ (garbage, Log.written)
  unfolding dispatch
  call_write garbage =
      accepted garbage (write c) 6 (law.type_iow magic_number 6 4 (omega arith) (omega arith))
        nr_write (omega arith)
      ∙ ground (arith, apart nr_write nr_execute (omega arith))

  call_read : (garbage : ℤ) → ioctl c garbage (read c) ≡ (garbage, Log.was_read)
  unfolding dispatch
  call_read garbage =
      accepted garbage (read c) 2 (law.type_ior magic_number 2 4 (omega arith) (omega arith))
        nr_read (omega arith)
      ∙ ground (arith, apart nr_read nr_execute (omega arith), apart nr_read nr_write (omega arith))

  call_rw_both : (garbage : ℤ) → ioctl c garbage (rw_both c) ≡ (garbage, Log.read_written)
  unfolding dispatch
  call_rw_both garbage =
      accepted garbage (rw_both c) 7 (law.type_iowr magic_number 7 4 (omega arith) (omega arith))
        nr_rw_both (omega arith)
      ∙ ground (
        arith,
        apart nr_rw_both nr_execute (omega arith),
        apart nr_rw_both nr_write (omega arith),
        apart nr_rw_both nr_read (omega arith),
      )

  -- Where the macros of ioctl.h keep their laws, the four ioctl calls of app.c pass both tests,
  -- and each is dispatched to its own case, in the order of the calls; what they return is
  -- whatever a call that falls off the end returns.
  pub app_log_lem :
      (garbage : ℤ)
      → app_log c garbage
        ≡ (garbage, Log.executed)
          ∷ (garbage, Log.written)
          ∷ (garbage, Log.was_read)
          ∷ (garbage, Log.read_written)
          ∷ []
  unfolding app_log
  app_log_lem garbage =
      cc (call_execute garbage, call_write garbage, call_read garbage, call_rw_both garbage)
