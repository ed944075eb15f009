-- ===== src/Common/Update.antt =====
-- One place of a function on numbers replaced: a thread's place in its call, a descriptor's position.
use Prim.Native.Nat.{ℕ}
use mathlib.Core.Path.{◌≡◌}
use mathlib.Core.Logic.{◌≢◌}
use native.Mathlib.Omega.{arith}
use linux_dev_note.Common.Tests.{if◌then◌else◌, ◌==◌}

abbrev pub update {ℓ} : {A : Type ℓ} → (ℕ → A) → ℕ → A → ℕ → A
update f t x u = if t == u then x else f u

pub update-same {ℓ} : {A : Type ℓ} (f : ℕ → A) (t : ℕ) (x : A) → update f t x t ≡ x
update-same f t x = ground arith

pub update-other {ℓ} : {A : Type ℓ} (f : ℕ → A) (t u : ℕ) (x : A) → t ≢ u → update f t x u ≡ f u
update-other f t u x ne = ground arith
