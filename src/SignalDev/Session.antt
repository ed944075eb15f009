-- ===== src/SignalDev/Session.antt =====
-- What a write to the signal file of 10-sigaction/kernalSignal.c sends, and what
-- 10-sigaction/app.c gets.
use linux_dev_note.Common.{
  ℕ, ◌+◌, ◌≤◌, ◌<◌, ◌^◌, ◌≡◌, true, false, ap, refl, ◌∙◌, List, [], ◌∷◌, ◌++◌, some, arith, length,
  take, drop, take-length, length-append, append_assoc,
}
use linux_dev_note.Common.Int.{ℤ, pos, ◌≤ℤ◌, ltb_ℤ}
use linux_dev_note.SignalDev.{
  test_info, SigInfo, Calls, IsCalls, scanned, signal, write_pid, app_main, printed, receive_data,
}

-- Where a write has sent a signal, it was one of at most ten bytes, the number of the process is the
-- one scanned, the process was found, and the signal is 35 with SI_QUEUE and the number 12345.
write_pid_sent :
    (c : Calls) (stack buf : List ℕ) (count : ℕ) (pid : ℤ) (info : SigInfo)
    → (write_pid c stack buf count).sent ≡ some (pid, info)
    → (count ≤ 10)
      × (pid ≡ scanned c (take count buf ++ drop count stack))
      × (c.finds_task pid ≡ true)
      × (info ≡ test_info)
unfolding write_pid signal
write_pid_sent c stack buf count pid info e = ground arith

-- A write that does not fail returns its count, and has sent a signal to the process scanned.
write_pid_ok :
    (c : Calls) (stack buf : List ℕ) (count : ℕ)
    → pos 0 ≤ℤ (write_pid c stack buf count).ret
    → ((write_pid c stack buf count).ret ≡ pos count)
      × ((write_pid c stack buf count).sent
          ≡ some (scanned c (take count buf ++ drop count stack), test_info))
unfolding write_pid signal
write_pid_ok c stack buf count h = ground arith

-- The bytes that the program writes, in the driver's buffer.
scanned_own :
    (c : Calls) (law : IsCalls c) (stack : List ℕ) (pid : ℕ)
    → pid < 10 ^ 9
    → let s = c.sprintf_int pid in
      scanned c (take (length s + 1) (s ++ 0 ∷ []) ++ drop (length s + 1) stack) ≡ pos pid
unfolding scanned
scanned_own c law stack pid h =
    let s = c.sprintf_int pid in
    let whole : take (length s + 1) (s ++ 0 ∷ []) ≡ s ++ 0 ∷ [] =
      take-length (s ++ 0 ∷ []) (length s + 1) (omega (arith, length-append s (0 ∷ []))) in
    rw (
      scanned,
      whole,
      append_assoc s (0 ∷ []) (drop (length s + 1) stack),
      law.scan_print pid (drop (length s + 1) stack) (omega arith),
    )

app_main_lem :
    (c : Calls) (law : IsCalls c) (fd : ℕ) (stack : List ℕ) (pid : ℕ)
    → pid < 10 ^ 9
    → c.finds_task (pos pid) ≡ true
    → pos 0 ≤ℤ c.send_sig_info (pos pid) (test_info)
    → app_main c (pos fd) stack pid ≡ (
      pos 0,
      some
          (record { ret = pos (length (c.sprintf_int pid) + 1); sent = some (pos pid, test_info) }),
    )
unfolding app_main write_pid signal
app_main_lem c law fd stack pid h found ok =
    rw (scanned_own c law stack pid h) (ground (arith, law.nine_digits pid h))

-- A process with a number below 10^9 that exists gets the signal 35 with the number 12345 from the
-- program's write, whatever stood in the driver's buffer, and the program ends with 0 and has printed
-- the two numbers, where its open succeeds and the signal can be sent.
pub app_main-printed :
    (c : Calls) (law : IsCalls c) (fd : ℕ) (stack : List ℕ) (pid : ℕ)
    → pid < 10 ^ 9
    → c.finds_task (pos pid) ≡ true
    → pos 0 ≤ℤ c.send_sig_info (pos pid) (test_info)
    → (app_main c (pos fd) stack pid ≡ (
      pos 0,
      some
          (record { ret = pos (length (c.sprintf_int pid) + 1); sent = some (pos pid, test_info) }),
    ))
      × (printed pid (app_main c (pos fd) stack pid).1 ≡ (35, 12345) ∷ [])
unfolding receive_data
app_main-printed c law fd stack pid h found ok =
    let ran = app_main_lem c law fd stack pid h found ok in
    let own : ltb_ℤ (pos pid) (pos pid) ≡ false = ground arith in
    (ran, ap (λ q. printed pid q.1) ran ∙ rw own refl)
