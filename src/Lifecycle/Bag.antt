-- ===== src/Lifecycle/Bag.antt =====
-- The kernel objects held as a bag: how many there are of each kind, whatever the order in which they
-- were taken.
use linux_dev_note.Common.{
  ℕ, ◌+◌, ◌-◌, ◌≡◌, ◌≢◌, refl, sym, ◌∙◌, ℕ_discrete, arith, true, false, List, [], ◌∷◌, ◌++◌,
  if◌then◌else◌,
}
use linux_dev_note.Lifecycle.{Resource, Held, index, same, release}

abbrev pub hit : Resource → Resource → ℕ
hit r x = if same r x then 1 else 0

abbrev pub count : Resource → Held → ℕ
count r [] = 0
count r (x ∷ xs) = hit r x + count r xs

-- Giving back one object after another.
abbrev pub release_all : List Resource → Held → Held
release_all [] s = s
release_all (q ∷ qs) s = release_all qs (release q s)

pub count-append : (r : Resource) (xs ys : Held) → count r (xs ++ ys) ≡ count r xs + count r ys
count-append r [] ys = omega arith
count-append r (x ∷ xs) ys = let ih = count-append r xs ys in omega arith

same_number : (a b : Resource) → index a ≡ index b → same a b ≡ true
same_number a b e = ground arith

other_number : (a b : Resource) → index a ≢ index b → same a b ≡ false
other_number a b ne = ground arith

-- Giving back one object takes one of its kind off, where there is one.
pub count-release : (r q : Resource) (s : Held) → count r (release q s) ≡ count r s - hit r q
count-release r q [] = omega arith
count-release r q (x ∷ xs) =
    let ih = count-release r q xs in
    elim (ℕ_discrete (index x) (index q)) [
      | yes e ↦ rw (same_number x q e, e) omega arith
      | no ne ↦ elim (ℕ_discrete (index r) (index q)) [
        | yes e ↦
            let other : same r x ≡ false = other_number r x (λ f. ne (sym f ∙ e)) in
            rw (other_number x q ne, other) omega arith
        | no nr ↦
            let none_taken : hit r q ≡ 0 = rw (other_number r q nr) refl in
            rw (other_number x q ne) omega arith
      ]
    ]

pub count-release_all :
    (r : Resource) (qs : List Resource) (s : Held)
    → count r (release_all qs s) ≡ count r s - count r qs
count-release_all r [] s = omega arith
count-release_all r (q ∷ qs) s =
    let ih = count-release_all r qs (release q s) in let one = count-release r q s in omega arith

pub no_kind-nothing : (s : Held) → ((r : Resource) → count r s ≡ 0) → s ≡ []
no_kind-nothing [] h = refl
no_kind-nothing (x ∷ xs) h =
    let one : hit x x ≡ 1 = rw (same_number x x refl) refl in
    let none_of_x : hit x x + count x xs ≡ 0 = h x in absurd (omega arith)
