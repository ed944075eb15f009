-- ===== src/Lifecycle/Account.antt =====
-- What the modules of the notebook hold between them, after any loads and unloads in any order.
use linux_dev_note.Common.{ℕ, ◌+◌, ◌≡◌, List, [], ◌∷◌, ◌++◌, if◌then◌else◌}
use linux_dev_note.Lifecycle.{Resource, Held}
use linux_dev_note.Lifecycle.Bag.{count}
use linux_dev_note.Lifecycle.Modules.{has, Kernel, Event, loads, unloads, happen}
use linux_dev_note.Lifecycle.Needs.{owned, left_by_load, left_by_unload}
use linux_dev_note.Lifecycle.Probed.{got_by}

-- What an event leaves behind, and a list of events.
abbrev pub left_by : Event → Kernel → Held
left_by (loads m a b) k = if has m k.loaded then [] else left_by_load m a b
left_by (unloads m) k = if has m k.loaded then left_by_unload m else []

abbrev pub leaked : List Event → Kernel → Held
leaked [] k = []
leaked (e ∷ es) k = left_by e k ++ leaked es (happen e k)

module _ (r : Resource) where
  abbrev Balanced : Kernel → ℕ → Type 0
  Balanced k n = count r k.held ≡ count r (owned k.loaded) + count r (got_by k.bound) + n
