-- ===== src/SignalDev.antt =====
-- The debugfs file of 10-sigaction/kernalSignal.c that sends a signal to the process whose number is
-- written to it, and the program that asks for one, 10-sigaction/app.c. What they call of the C
-- library and of the kernel is an interface; logging is left out.
pub mod Session
use linux_dev_note.Common.{
  ℕ, ◌+◌, ◌≤◌, ◌<◌, ◌^◌, ◌≡◌, Bool, List, [], ◌∷◌, ◌++◌, Option, none, some, ltb, if◌then◌else◌,
  ◌||◌, not, ◌==◌, length, take, drop,
}
use linux_dev_note.Common.Int.{ℤ, pos, negsuc, minus, einval, enodev, ltb_ℤ}

-- SIG_TEST, SI_QUEUE and the number that is sent
abbrev pub sig_test : ℕ
sig_test = 35

abbrev pub si_queue : ℤ
si_queue = negsuc 0

abbrev pub si_int_sent : ℕ
si_int_sent = 12345

-- The fields of `struct siginfo` that are set; the others are 0.
pub record SigInfo : Type 0 where
  pub si_signo : ℕ
  pub si_code : ℤ
  pub si_int : ℕ

abbrev pub test_info : SigInfo
test_info = record { si_signo = sig_test; si_code = si_queue; si_int = si_int_sent }

-- What the two programs call.
pub record Calls : Type 0 where
  -- the string that sprintf(buf, "%d", n) writes, without its final 0
  pub sprintf_int : ℕ → List ℕ
  -- the number that sscanf(s, "%d", &n) stores, or `none` where it stores none
  pub sscanf_int : List ℕ → Option ℤ
  -- whether pid_task(find_pid_ns(pid, ...), PIDTYPE_PID) gives a task
  pub finds_task : ℤ → Bool
  -- the result of send_sig_info for the task of a process
  pub send_sig_info : ℤ → SigInfo → ℤ

-- A printed number is scanned back, whatever stands behind its final 0, and a number below 10^9 has
-- at most nine digits.
pub record IsCalls (c : Calls) : Type 0 where
  pub scan_print :
      (n : ℕ) (behind : List ℕ)
      → n < 2 ^ 31
      → c.sscanf_int (c.sprintf_int n ++ 0 ∷ behind) ≡ some (pos n)
  pub nine_digits : (n : ℕ) → n < 10 ^ 9 → length (c.sprintf_int n) ≤ 9

-- What a call of `write_pid` comes to: its result, and the signal that it has sent, with the number
-- of the process.
pub record Outcome : Type 0 where
  pub ret : ℤ
  pub sent : Option (ℤ × SigInfo)

-- `receiveData` of app.c: the two numbers that it prints.
unfoldable pub receive_data : ℕ → SigInfo → ℕ × ℕ
receive_data n info = (n, info.si_int)

-- What the program prints of a signal that its write has sent: its handler stands for SIG_TEST, and is
-- called where the signal goes to the program's own number.
abbrev pub printed : ℕ → Option Outcome → List (ℕ × ℕ)
printed pid none = []
printed pid (some o) = elim o.sent [
  | none ↦ []
  | some (to, info) ↦
      if ltb_ℤ to (pos pid) || ltb_ℤ (pos pid) to || not (info.si_signo == sig_test)
      then []
      else receive_data info.si_signo info ∷ []
]

module _ (c : Calls) where
  -- `pid` after the scan: it starts as 0
  unfoldable pub scanned : List ℕ → ℤ
  scanned mybuf = elim (c.sscanf_int mybuf) [ none ↦ pos 0 | some pid ↦ pid ]

  -- from the lookup of the task on
  unfoldable pub signal : ℕ → ℤ → Outcome
  signal count pid =
      let ret = c.send_sig_info pid test_info in
      if c.finds_task pid
      then record {
        ret = if ltb_ℤ ret (pos 0) then ret else pos count;
        sent = some (pid, test_info);
      }
      else record { ret = minus enodev; sent = none }

  -- `write_pid` of the first `count` bytes of a user buffer that can be read. `stack` is what stood
  -- in `mybuf` and behind it; nothing ends the string that is scanned but a 0 among the bytes.
  unfoldable pub write_pid : List ℕ → List ℕ → ℕ → Outcome
  unfolding scanned signal
  write_pid stack buf count =
      if ltb 10 count
      then record { ret = minus einval; sent = none }
      else signal count (scanned (take count buf ++ drop count stack))

  -- `main` of app.c: what it returns, and the outcome of its write, if it makes one. `opened` is the
  -- result of open.
  unfoldable pub app_main : ℤ → List ℕ → ℕ → ℤ × Option Outcome
  unfolding write_pid
  app_main opened stack pid =
      let buf = c.sprintf_int pid ++ 0 ∷ [] in
      let outcome = write_pid stack buf (length (c.sprintf_int pid) + 1) in
      if ltb_ℤ opened (pos 0)
      then (negsuc 0, none)
      else (if ltb_ℤ outcome.ret (pos 0) then negsuc 0 else pos 0, some outcome)
