-- ===== src/Notifier.antt =====
-- The timer of 05-Notifier/notifier.c, which passes its count to the notifier chain each second.
-- What the chain does with an event is the kernel's and the handlers', which only log: the model
-- keeps the events passed to it.
pub mod Ticks
pub mod Chain
pub mod Unload
use linux_dev_note.Common.{
  ℕ, zero, suc, ◌+◌, ◌%◌, ◌^◌, Bool, true, false, List, [], ◌∷◌, if◌then◌else◌,
}

-- `count`, an unsigned long; whether the timer is pending; and the events passed to
-- raw_notifier_call_chain, the newest first.
pub record Timer : Type 0 where
  pub count : ℕ
  pub pending : Bool
  pub events : List ℕ

-- The state that `myNotifier_init` leaves.
abbrev pub added : Timer
added = record { count = 0; pending = true; events = [] }

-- `notifier_function`, which the kernel calls when the timer expires
unfoldable pub notifier_function : Timer → Timer
notifier_function s = record {
  count = (s.count + 1) % 2 ^ 64;
  pending = true;
  events = s.count ∷ s.events;
}

-- What `n` seconds make of a state: an expiry of a timer that is not pending does not happen.
unfoldable pub seconds : ℕ → Timer → Timer
unfolding notifier_function
seconds zero s = s
seconds (suc n) s =
    let earlier = seconds n s in
    if earlier.pending then notifier_function (record earlier { pending = false }) else earlier
