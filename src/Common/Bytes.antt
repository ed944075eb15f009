-- ===== src/Common/Bytes.antt =====
-- Byte arrays as lists: the slice that a copy reads, and the array after a copy into it.
use linux_dev_note.Common.{
  ℕ, zero, suc, ◌+◌, ◌≤◌, ◌<◌, ◌≡◌, refl, ap, ap₂, ◌∙◌, List, [], ◌∷◌, ◌++◌, arith, length, get_or,
  set, take, drop, length-set, length-take, length-drop, get_or-set_self, get_or-set_ne,
  set-set_self, set_comm, drop-set, take-add, drop-drop,
}

module _ {ℓ} {A : Type ℓ} where
  -- the `n` elements from index `p` on
  abbrev pub slice : List A → ℕ → ℕ → List A
  slice xs p n = take n (drop p xs)

  -- `memcpy(xs + p, ys, length ys)`: what would fall behind the end is dropped.
  unfoldable pub blit : List A → ℕ → List A → List A
  blit xs p [] = xs
  blit xs p (y ∷ ys) = blit (set xs p y) (suc p) ys

  pub length-blit : (xs : List A) (p : ℕ) (ys : List A) → length (blit xs p ys) ≡ length xs
  unfolding blit
  length-blit xs p [] = refl
  length-blit xs p (y ∷ ys) = length-blit (set xs p y) (suc p) ys ∙ length-set xs p y

  pub length-slice : (xs : List A) (p n : ℕ) → p + n ≤ length xs → length (slice xs p n) ≡ n
  length-slice xs p n h = omega (arith, length-take n (drop p xs), length-drop p xs)

  pub drop-cons :
      (xs : List A) (p : ℕ) (d : A) → p < length xs → drop p xs ≡ get_or xs p d ∷ drop (suc p) xs
  drop-cons [] p d h = absurd (omega arith)
  drop-cons (x ∷ xs) zero d h = refl
  drop-cons (x ∷ xs) (suc p) d h = drop-cons xs p d (omega arith)

  -- A copy leaves what stands before it.
  pub get_or-blit_before :
      (xs : List A) (p : ℕ) (ys : List A) (i : ℕ) (d : A)
      → i < p
      → get_or (blit xs p ys) i d ≡ get_or xs i d
  unfolding blit
  get_or-blit_before xs p [] i d h = refl
  get_or-blit_before xs p (y ∷ ys) i d h =
      get_or-blit_before (set xs p y) (suc p) ys i d (omega arith)
      ∙ get_or-set_ne xs {i = p} {j = i} y d (λ e. omega arith)

  -- A copy leaves what stands behind it.
  pub get_or-blit_after :
      (xs : List A) (p : ℕ) (ys : List A) (i : ℕ) (d : A)
      → p + length ys ≤ i
      → get_or (blit xs p ys) i d ≡ get_or xs i d
  unfolding blit
  get_or-blit_after xs p [] i d h = refl
  get_or-blit_after xs p (y ∷ ys) i d h =
      get_or-blit_after (set xs p y) (suc p) ys i d (omega arith)
      ∙ get_or-set_ne xs {i = p} {j = i} y d (λ e. omega arith)

  -- What was copied in is read back.
  pub slice-blit :
      (xs : List A) (p : ℕ) (ys : List A)
      → p + length ys ≤ length xs
      → slice (blit xs p ys) p (length ys) ≡ ys
  unfolding blit
  slice-blit xs p [] h = refl
  slice-blit xs p (y ∷ ys) h =
      ap (take (suc (length ys))) (
        drop-cons copied p y
          (omega (arith, length-blit (set xs p y) (suc p) ys, length-set xs p y)))
      ∙ ap₂ ◌∷◌ first (slice-blit (set xs p y) (suc p) ys (omega (arith, length-set xs p y)))
    where
      copied : List A
      copied = blit (set xs p y) (suc p) ys

      first : get_or copied p y ≡ y
      first =
          get_or-blit_before (set xs p y) (suc p) ys p y (omega arith)
          ∙ get_or-set_self xs p y y (omega arith)

  -- A copy of two pieces is the copy of one after the other.
  pub blit-append :
      (xs : List A) (p : ℕ) (ys zs : List A)
      → blit xs p (ys ++ zs) ≡ blit (blit xs p ys) (p + length ys) zs
  unfolding blit
  blit-append xs p [] zs = ap (λ k. blit xs k zs) (omega arith)
  blit-append xs p (y ∷ ys) zs =
      blit-append (set xs p y) (suc p) ys zs
      ∙ ap (λ k. blit (blit (set xs p y) (suc p) ys) k zs) (omega arith)

  pub set-blit :
      (xs : List A) (i p : ℕ) (ys : List A) (v : A)
      → i < p
      → set (blit xs p ys) i v ≡ blit (set xs i v) p ys
  unfolding blit
  set-blit xs i p [] v h = refl
  set-blit xs i p (y ∷ ys) v h =
      set-blit (set xs p y) i (suc p) ys v (omega arith)
      ∙ ap (λ l. blit l (suc p) ys) (set_comm xs i p v y h)

  -- A copy over one of the same length leaves nothing of it.
  pub blit-blit_self :
      (xs : List A) (p : ℕ) (ys zs : List A)
      → length ys ≡ length zs
      → blit (blit xs p ys) p zs ≡ blit xs p zs
  unfolding blit
  blit-blit_self xs p [] [] h = refl
  blit-blit_self xs p [] (z ∷ zs) h = absurd (omega arith)
  blit-blit_self xs p (y ∷ ys) [] h = absurd (omega arith)
  blit-blit_self xs p (y ∷ ys) (z ∷ zs) h =
      ap (λ l. blit l (suc p) zs)
        (set-blit (set xs p y) p (suc p) ys z (omega arith)
          ∙ ap (λ l. blit l (suc p) ys) (set-set_self xs p y z))
      ∙ blit-blit_self (set xs p z) (suc p) ys zs (omega arith)

  pub slice-append :
      (xs : List A) (p m n : ℕ) → slice xs p (m + n) ≡ slice xs p m ++ slice xs (p + m) n
  slice-append xs p m n =
      take-add m n (drop p xs) ∙ ap (λ l. slice xs p m ++ take n l) (drop-drop p m xs)

  slice-set : (xs : List A) (q k p : ℕ) (v : A) → q + k ≤ p → slice (set xs p v) q k ≡ slice xs q k
  slice-set [] q k p v h = refl
  slice-set (x ∷ xs) (suc q) k zero v h = absurd (omega arith)
  slice-set (x ∷ xs) (suc q) k (suc p) v h = slice-set xs q k p v (omega arith)
  slice-set (x ∷ xs) zero zero p v h = refl
  slice-set (x ∷ xs) zero (suc k) zero v h = absurd (omega arith)
  slice-set (x ∷ xs) zero (suc k) (suc p) v h = ap (λ l. x ∷ l) (slice-set xs 0 k p v (omega arith))

  -- A slice before a copy is left as it was.
  pub slice-blit_before :
      (xs : List A) (q k p : ℕ) (ys : List A) → q + k ≤ p → slice (blit xs p ys) q k ≡ slice xs q k
  unfolding blit
  slice-blit_before xs q k p [] h = refl
  slice-blit_before xs q k p (y ∷ ys) h =
      slice-blit_before (set xs p y) q k (suc p) ys (omega arith) ∙ slice-set xs q k p y h

  -- So is a slice behind it.
  pub slice-blit_after :
      (xs : List A) (q k p : ℕ) (ys : List A)
      → p + length ys ≤ q
      → slice (blit xs p ys) q k ≡ slice xs q k
  unfolding blit
  slice-blit_after xs q k p [] h = refl
  slice-blit_after xs q k p (y ∷ ys) h =
      slice-blit_after (set xs p y) q k (suc p) ys (omega arith)
      ∙ ap (take k) (drop-set xs q p y (omega arith))
