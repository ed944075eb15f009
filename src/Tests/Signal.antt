-- ===== src/Tests/Signal.antt =====
-- The signal file at concrete inputs, over decimal numbers.
use linux_dev_note.Common.{
  ℕ, zero, suc, ◌+◌, ◌-◌, ◌*◌, ◌/◌, ◌%◌, ◌^◌, ◌<◌, ◌≤◌, ◌≡◌, ◌++◌, ◌∙◌, refl, ap, arith, Bool, true,
  false, List, [], ◌∷◌, Option, none, some, if◌then◌else◌, ◌==◌, ltb, leb, ◌&&◌, length,
  length-append, append_assoc, dec_lt,
}
use linux_dev_note.Common.Int.{ℤ, pos, negsuc, minus, enodev, ◌≤ℤ◌}
use linux_dev_note.SignalDev.{
  test_info, Calls, IsCalls, scanned, signal, write_pid, app_main, printed,
}
use linux_dev_note.Sigint
use linux_dev_note.Sigint.Race.{ended-or-waiting}
use linux_dev_note.SignalDev.Session.{app_main-printed}

-- the decimal digits of a number below the fuel
unfoldable digits : ℕ → ℕ → List ℕ
digits zero n = []
digits (suc fuel) n =
    let front = digits fuel (n / 10) in
    if ltb n 10 then (48 + n) ∷ [] else front ++ (48 + n % 10) ∷ []

abbrev is_digit : ℕ → Bool
is_digit c = leb 48 c && leb c 57

abbrev push : Option ℕ → ℕ → ℕ
push none d = d
push (some a) d = a * 10 + d

unfoldable parse : Option ℕ → List ℕ → Option ℕ
parse acc [] = acc
parse acc (c ∷ cs) = if is_digit c then parse (some (push acc (c - 48))) cs else acc

abbrev to_int : Option ℕ → Option ℤ
to_int none = none
to_int (some n) = some (pos n)

-- `live` is the only process.
abbrev calls : ℕ → Calls
calls live = record {
  sprintf_int = λ n. digits (suc n) n;
  sscanf_int = λ s. to_int (parse none s);
  finds_task = λ pid. elim pid [ pos n ↦ n == live | negsuc n ↦ false ];
  send_sig_info = λ pid info. pos 0;
}

parse-digit :
    (acc : Option ℕ) (d : ℕ) (behind : List ℕ)
    → d < 10
    → parse acc ((48 + d) ∷ behind) ≡ parse (some (push acc d)) behind
unfolding parse
parse-digit acc d behind h = ground arith

parse-digits :
    (fuel n : ℕ) (behind : List ℕ)
    → n < fuel
    → parse none (digits fuel n ++ behind) ≡ parse (some n) behind
unfolding digits
parse-digits zero n behind h = absurd (omega arith)
parse-digits (suc fuel) n behind h = elim (dec_lt n 10) [
  | yes small ↦
      let test : ltb n 10 ≡ true = ground arith in
      rw (digits, test) (parse-digit none n behind small)
  | no big ↦
      let test : ltb n 10 ≡ false = ground arith in
      rw (digits, test, append_assoc (digits fuel (n / 10)) ((48 + n % 10) ∷ []) behind)
        (parse-digits fuel (n / 10) ((48 + n % 10) ∷ behind) (omega arith)
          ∙ parse-digit (some (n / 10)) (n % 10) behind (omega arith)
          ∙ ap (λ m. parse (some m) behind) (omega arith))
]

length-digits : (fuel n k : ℕ) → n < fuel → n < 10 ^ suc k → length (digits fuel n) ≤ suc k
unfolding digits
length-digits zero n k h b = absurd (omega arith)
length-digits (suc fuel) n zero h b =
    let test : ltb n 10 ≡ true = ground arith in rw (digits, test) (omega arith)
length-digits (suc fuel) n (suc k) h b = elim (dec_lt n 10) [
  | yes small ↦ let test : ltb n 10 ≡ true = ground arith in rw (digits, test) (omega arith)
  | no big ↦
      let test : ltb n 10 ≡ false = ground arith in
      let power : 10 ^ suc (suc k) ≡ 10 ^ suc k * 10 = omega arith in
      rw (digits, test)
        (omega (
          arith,
          length-append (digits fuel (n / 10)) ((48 + n % 10) ∷ []),
          length-digits fuel (n / 10) k (omega arith) (omega arith),
        ))
]

calls_law : (live : ℕ) → IsCalls (calls live)
unfolding parse
calls_law live = record {
  scan_print = λ n behind h. ap to_int (parse-digits (suc n) n (0 ∷ behind) (omega arith));
  nine_digits = λ n h. length-digits (suc n) n 8 (omega arith) h;
}

-- What a buffer on the stack may hold.
abbrev stack : List ℕ
stack = 52 ∷ 51 ∷ 50 ∷ 49 ∷ 48 ∷ 47 ∷ 46 ∷ 45 ∷ 44 ∷ 43 ∷ []

-- "31", with its final 0
abbrev thirty_one : List ℕ
thirty_one = 51 ∷ 49 ∷ 0 ∷ []

unknown_process :
    write_pid (calls 30) stack thirty_one 3 ≡ record { ret = minus enodev; sent = none }
unfolding write_pid scanned signal parse
unknown_process = refl

-- Without the final 0 the scan goes on into the stack, and finds another number: 31210.
not_ended : (write_pid (calls 31210) stack thirty_one 2).sent ≡ some (pos 31210, test_info)
unfolding write_pid scanned signal parse
not_ended = refl

known : (write_pid (calls 31) stack thirty_one 3).sent ≡ some (pos 31, test_info)
unfolding write_pid scanned signal parse
known = refl

accepted : pos 0 ≤ℤ (write_pid (calls 31) stack thirty_one 3).ret
unfolding write_pid scanned signal parse
accepted = omega arith

app_main-printed_example :
    (app_main (calls 4711) (pos 3) stack 4711 ≡ (
      pos 0,
      some
          (record { ret = pos (length (digits 4712 4711) + 1); sent = some (pos 4711, test_info) }),
    ))
    × (printed 4711 (app_main (calls 4711) (pos 3) stack 4711).1 ≡ (35, 12345) ∷ [])
app_main-printed_example =
    app_main-printed (calls 4711) (calls_law 4711) 3 stack 4711 (omega arith) refl (omega arith)

-- A SIGINT that wakes the program.
abbrev interrupted : Sigint.Process
interrupted = record { pc = Sigint.ended; printed = 1 }

interrupted-Reach : Sigint.Reach interrupted
unfolding Sigint.my_func
interrupted-Reach =
    Sigint.calls
      (Sigint.arrives
        (Sigint.calls (Sigint.calls Sigint.start (Sigint.signal refl)) (Sigint.pause refl))
        (Sigint.wakes refl))
      (Sigint.exit refl)

ended-or-waiting_example :
    (0 < 1)
    × ((w : Sigint.Process) × Sigint.Reach w
        × (w.pc ≡ Sigint.pausing)
        × (w.printed ≡ 2)
        × ((u : Sigint.Process) → ¬ Sigint.Call w u))
ended-or-waiting_example = ended-or-waiting 2 interrupted-Reach refl
