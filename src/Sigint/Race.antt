-- ===== src/Sigint/Race.antt =====
-- Signals that reach the program of 01-ProcessCtrl/mysignal.c before it waits for them.
use linux_dev_note.Common.{ℕ, zero, suc, ◌≡◌, ◌<◌, refl, subst, sym, arith}
use linux_dev_note.Sigint.{
  Pc, starting, installed, pausing, woken, ended, killed, Process, my_func, Call, signal, pause,
  exit, Arrival, kills, handled, wakes, handled_late, Reach, start, calls, arrives,
}

-- What is printed, by where `main` stands: nothing without a handler, and something once pause has
-- returned.
abbrev Said : Pc → ℕ → Type 0
Said starting n = n ≡ 0
Said installed n = Unit {0}
Said pausing n = Unit {0}
Said woken n = 0 < n
Said ended n = 0 < n
Said killed n = n ≡ 0

Call-Said : {s u : Process} → Call s u → Said s.pc s.printed → Said u.pc u.printed
Call-Said (signal e) h = tt
Call-Said (pause e) h = tt
Call-Said {s} (exit e) h = subst (λ q. Said q s.printed) e h

Arrival-Said : {s u : Process} → Arrival s u → Said s.pc s.printed → Said u.pc u.printed
unfolding my_func
Arrival-Said {s} (kills e) h = subst (λ q. Said q s.printed) e h
Arrival-Said {s} (handled e) h = subst (λ q. Said q (suc s.printed)) (sym e) tt
Arrival-Said (wakes e) h = omega arith
Arrival-Said {s} (handled_late e) h = subst (λ q. Said q (suc s.printed)) (sym e) (omega arith)

Reach-Said : {s : Process} → Reach s → Said s.pc s.printed
Reach-Said start = refl
Reach-Said (calls r st) = Call-Said st (Reach-Said r)
Reach-Said (arrives r st) = Arrival-Said st (Reach-Said r)

paused-Call : {s u : Process} → s.pc ≡ pausing → Call s u → ⊥
paused-Call p (signal e) = cc
paused-Call p (pause e) = cc
paused-Call p (exit e) = cc

-- `n` signals behind the call of signal and before that of pause.
early : (n : ℕ) → Reach (record { pc = installed; printed = n })
unfolding my_func
early zero = calls start (signal refl)
early (suc n) = arrives (early n) (handled refl)

-- Where the program has ended it has printed its line; but for every `n` it can have got `n`
-- signals and printed as many lines before its pause, and then stand in pause, where no call of
-- its own leads on.
pub ended-or-waiting :
    (n : ℕ) {s : Process}
    → Reach s
    → s.pc ≡ ended
    → (0 < s.printed)
      × ((w : Process) × Reach w
          × (w.pc ≡ pausing)
          × (w.printed ≡ n)
          × ((u : Process) → ¬ Call w u))
ended-or-waiting n {s} r e = (
  subst (λ q. Said q s.printed) e (Reach-Said r),
  (
    record { pc = pausing; printed = n },
    calls (early n) (pause refl),
    refl,
    refl,
    λ u. paused-Call refl,
  ),
)
