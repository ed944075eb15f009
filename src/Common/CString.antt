-- ===== src/Common/CString.antt =====
-- Strings in the memory of a C program: the bytes of an array as far as the first 0.
use linux_dev_note.Common.{
  ℕ, suc, ◌≤◌, ◌<◌, ◌≡◌, ◌≢◌, refl, ap, ◌∙◌, List, [], ◌∷◌, ◌++◌, Option, none, some, false,
  if◌then◌else◌, ◌==◌, arith, length, drop, length-append, append_assoc, set, zero, ◌+◌, take,
}
use linux_dev_note.Common.Bytes.{blit}

abbrev cons_string : ℕ → Option (List ℕ) → Option (List ℕ)
cons_string c none = none
cons_string c (some cs) = some (c ∷ cs)

-- What printf prints for `%s`; `none` where no byte of the array is 0, so that the end is run over,
-- which is undefined in C.
unfoldable pub c_string : List ℕ → Option (List ℕ)
c_string [] = none
c_string (c ∷ cs) = if c == 0 then some [] else cons_string c (c_string cs)

-- the bytes of a string, none of them 0
abbrev pub IsText : List ℕ → Type 0
IsText [] = Unit {0}
IsText (c ∷ cs) = (c ≢ 0) × IsText cs

pub c_string-append : (xs ys : List ℕ) → IsText xs → c_string (xs ++ 0 ∷ ys) ≡ some xs
unfolding c_string
c_string-append [] ys h = refl
c_string-append (x ∷ xs) ys h =
    let test : (x == 0) ≡ false = ground (arith, h.0) in
    rw (c_string, test, c_string-append xs ys h.1) refl

pub blit-cons :
    (m : ℕ) (mem : List ℕ) (p : ℕ) (ys : List ℕ) → blit (m ∷ mem) (suc p) ys ≡ m ∷ blit mem p ys
unfolding blit
blit-cons m mem p [] = refl
blit-cons m mem p (y ∷ ys) = blit-cons m (set mem p y) (suc p) ys

-- The front of an array that is written from its start.
pub blit-front :
    (mem xs : List ℕ) → length xs ≤ length mem → blit mem 0 xs ≡ xs ++ drop (length xs) mem
unfolding blit
blit-front mem [] h = refl
blit-front [] (x ∷ xs) h = absurd (omega arith)
blit-front (m ∷ mem) (x ∷ xs) h =
    blit-cons x mem 0 xs ∙ ap (λ l. x ∷ l) (blit-front mem xs (omega arith))

-- An array that is written from a place inside it.
pub blit-split :
    (mem : List ℕ) (p : ℕ) (ys : List ℕ)
    → p + length ys ≤ length mem
    → blit mem p ys ≡ take p mem ++ ys ++ drop (p + length ys) mem
blit-split mem zero ys h =
    blit-front mem ys (omega arith) ∙ ap (λ n. ys ++ drop n mem) (omega arith)
blit-split [] (suc p) ys h = absurd (omega arith)
blit-split (m ∷ mem) (suc p) ys h =
    blit-cons m mem p ys
    ∙ ap (λ l. m ∷ l) (blit-split mem p ys (omega arith))
    ∙ ap (λ n. m ∷ (take p mem ++ ys ++ drop n (m ∷ mem))) {x = suc (p + length ys)} (omega arith)

-- A string written to the start of an array that it leaves room in, with its final 0.
pub c_string-blit :
    (mem xs : List ℕ)
    → IsText xs
    → length xs < length mem
    → c_string (blit mem 0 (xs ++ 0 ∷ [])) ≡ some xs
c_string-blit mem xs h room =
    ap c_string (
      blit-front mem (xs ++ 0 ∷ []) (omega (arith, length-append xs (0 ∷ [])))
      ∙ append_assoc xs (0 ∷ []) _)
    ∙ c_string-append xs _ h
