-- ===== src/Notifier/Ticks.antt =====
-- The events that the chain of 05-Notifier/notifier.c gets, second by second.
use linux_dev_note.Common.{ℕ, zero, suc, ◌^◌, ◌<◌, ◌≡◌, refl, ap, true, List, [], ◌∷◌, arith}
use linux_dev_note.Notifier.{added, notifier_function, seconds}

-- n - 1, …, 1, 0
abbrev pub down_from : ℕ → List ℕ
down_from zero = []
down_from (suc n) = n ∷ down_from n

-- For fewer than 2^64 seconds: after `n` of them the chain has got the events 0 to n - 1, each once
-- and in order, and the timer is pending again.
pub seconds_lem :
    (n : ℕ)
    → n < 2 ^ 64
    → seconds n added ≡ record { count = n; pending = true; events = down_from n }
unfolding seconds notifier_function
seconds_lem zero h = refl
seconds_lem (suc n) h =
    rw (seconds, seconds_lem n (omega arith))
      (ap (λ c. record { count = c; pending = true; events = n ∷ down_from n }) (omega arith))
