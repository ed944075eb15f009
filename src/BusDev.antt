-- ===== src/BusDev.antt =====
-- How the bus of 06-bus/bus.c finds the driver of a device: `my_match`. The functions of string.h
-- are an interface; a string is the list of its characters, without the final 0.
pub mod Handlers
pub mod Match
pub mod Binding
use linux_dev_note.Common.{
  ℕ, zero, suc, ◌≡◌, Bool, true, false, List, [], ◌∷◌, ◌==◌, if◌then◌else◌, length,
}
use linux_dev_note.Common.Int.{ℤ}
use linux_dev_note.Lifecycle.{is_zero}

pub record StringCalls : Type 0 where
  pub strlen : List ℕ → ℕ
  pub strncmp : List ℕ → List ℕ → ℕ → ℤ

-- whether two strings agree as far as `n` characters, or to the end of both
abbrev pub same_front : ℕ → List ℕ → List ℕ → Bool
same_front zero xs ys = true
same_front (suc n) [] [] = true
same_front (suc n) [] (y ∷ ys) = false
same_front (suc n) (x ∷ xs) [] = false
same_front (suc n) (x ∷ xs) (y ∷ ys) = if x == y then same_front n xs ys else false

pub record IsStringCalls (c : StringCalls) : Type 0 where
  pub strlen_eq : (xs : List ℕ) → c.strlen xs ≡ length xs
  pub strncmp_eq : (xs ys : List ℕ) (n : ℕ) → is_zero (c.strncmp xs ys n) ≡ same_front n xs ys

-- `!strncmp(dev_name(dev), driver->name, strlen(driver->name))`
unfoldable pub my_match : StringCalls → List ℕ → List ℕ → Bool
my_match c dev_name driver_name = is_zero (c.strncmp dev_name driver_name (c.strlen driver_name))

-- The name that 06-bus/device.c and 06-bus/driver.c both give, "my_dev".
abbrev pub my_dev : List ℕ
my_dev = b'm' ∷ b'y' ∷ b'_' ∷ b'd' ∷ b'e' ∷ b'v' ∷ []
