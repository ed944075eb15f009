-- ===== src/BusDev/Match.antt =====
-- Which devices `my_match` of 06-bus/bus.c matches a driver with.
use linux_dev_note.Common.{
  ℕ, ◌≡◌, refl, ap, Bool, true, false, List, [], ◌∷◌, ◌==◌, if◌then◌else◌, length,
}
use linux_dev_note.BusDev.{StringCalls, IsStringCalls, same_front, my_match}

-- whether `xs` is what `ys` begins with
abbrev pub is_prefix : List ℕ → List ℕ → Bool
is_prefix [] ys = true
is_prefix (x ∷ xs) [] = false
is_prefix (x ∷ xs) (y ∷ ys) = if y == x then is_prefix xs ys else false

same_front-prefix : (xs ys : List ℕ) → same_front (length ys) xs ys ≡ is_prefix ys xs
same_front-prefix xs [] = refl
same_front-prefix [] (y ∷ ys) = refl
same_front-prefix (x ∷ xs) (y ∷ ys) =
    ap (λ b. if x == y then b else false) (same_front-prefix xs ys)

-- Where string.h keeps its laws, a driver is matched with every device whose name begins with the
-- driver's name, and with no other.
pub my_match_lem :
    (c : StringCalls) (law : IsStringCalls c) (dev_name driver_name : List ℕ)
    → my_match c dev_name driver_name ≡ is_prefix driver_name dev_name
unfolding my_match
my_match_lem c law dev_name driver_name =
    rw (law.strlen_eq driver_name, law.strncmp_eq dev_name driver_name (length driver_name))
      (same_front-prefix dev_name driver_name)
