-- ===== src/Sigint.antt =====
-- The program of 01-ProcessCtrl/mysignal.c, which installs a handler for SIGINT and waits in pause: its
-- own calls, and the signals that arrive between them. The signal calls keep to signal(7): SIGINT ends
-- a process that has no handler for it, the handler stays installed, and pause returns when a handler
-- has run during it.
pub mod Race
use linux_dev_note.Common.{ℕ, suc, ◌≡◌, ◌==◌, if◌then◌else◌}

-- SIGINT
abbrev pub sigint : ℕ
sigint = 2

-- Where `main` stands.
pub data Pc : Type 0 where
  starting : Pc  -- before signal
  installed : Pc  -- before pause
  pausing : Pc
  woken : Pc  -- before exit
  ended : Pc
  killed : Pc

-- The process, and how often "I have get SIGINT" has been printed.
pub record Process : Type 0 where
  pub pc : Pc
  pub printed : ℕ

-- `my_func`: the lines printed behind a call
unfoldable pub my_func : ℕ → ℕ → ℕ
my_func sign_no printed = if sign_no == sigint then suc printed else printed

-- A call of `main`.
pub data Call (s : Process) : Process → Type 0 where
  signal : s.pc ≡ starting → Call s (record s { pc = installed })
  pause : s.pc ≡ installed → Call s (record s { pc = pausing })
  exit : s.pc ≡ woken → Call s (record s { pc = ended })

-- A SIGINT arrives.
pub data Arrival (s : Process) : Process → Type 0 where
  kills : s.pc ≡ starting → Arrival s (record s { pc = killed })
  handled : s.pc ≡ installed → Arrival s (record s { printed = my_func sigint s.printed })
  wakes : s.pc ≡ pausing → Arrival s (record { pc = woken; printed = my_func sigint s.printed })
  handled_late : s.pc ≡ woken → Arrival s (record s { printed = my_func sigint s.printed })

abbrev pub begun : Process
begun = record { pc = starting; printed = 0 }

pub data Reach : Process → Type 0 where
  start : Reach begun
  calls : {s u : Process} → Reach s → Call s u → Reach u
  arrives : {s u : Process} → Reach s → Arrival s u → Reach u
