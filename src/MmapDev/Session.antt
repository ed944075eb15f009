-- ===== src/MmapDev/Session.antt =====
-- What the program that maps the page sees of the driver's buffer, and leaves in it.
use linux_dev_note.Common.{
  ℕ, zero, suc, ◌+◌, ◌%◌, ◌^◌, ◌≤◌, ◌≡◌, refl, ap, ap₂, sym, ◌∙◌, true, List, [], ◌∷◌, ◌++◌, arith,
  length, get_or, set, length-set, take,
}
use linux_dev_note.Common.Bytes.{slice, blit, drop-cons, length-blit, slice-blit, slice-blit_after}
use linux_dev_note.MmapDev.{fill, loaded, visit, print_all, main}

-- the bytes i, i + 1, …, `n` of them
abbrev pub counting : ℕ → ℕ → List ℕ
counting i zero = []
counting i (suc n) = i % 2 ^ 8 ∷ counting (suc i) n

abbrev pub copies : ℕ → ℕ → List ℕ
copies zero v = []
copies (suc n) v = v ∷ copies n v

pub length-copies : (n v : ℕ) → length (copies n v) ≡ n
length-copies zero v = refl
length-copies (suc n) v = ap suc (length-copies n v)

fill-eq-blit : (i n : ℕ) (buffer : List ℕ) → fill i n buffer ≡ blit buffer i (counting i n)
unfolding fill blit
fill-eq-blit i zero buffer = refl
fill-eq-blit i (suc n) buffer = fill-eq-blit (suc i) n (set buffer i (i % 2 ^ 8))

slice-suc :
    (xs : List ℕ) (i n : ℕ)
    → i + suc n ≤ length xs
    → slice xs i (suc n) ≡ get_or xs i 0 ∷ slice xs (suc i) n
slice-suc xs i n h = ap (take (suc n)) (drop-cons xs i 0 (omega arith))

slice-set :
    (xs : List ℕ) (i n v : ℕ)
    → suc i + n ≤ length xs
    → slice (set xs i v) (suc i) n ≡ slice xs (suc i) n
unfolding blit
slice-set xs i n v h = slice-blit_after xs (suc i) n i (v ∷ []) (omega arith)

visit-page : (i n : ℕ) (page : List ℕ) → (visit i n page).1 ≡ blit page i (copies n 66)
unfolding visit blit
visit-page i zero page = refl
visit-page i (suc n) page = visit-page (suc i) n (set page i 66)

visit-printed :
    (i n : ℕ) (page : List ℕ) → i + n ≤ length page → (visit i n page).0 ≡ slice page i n
unfolding visit
visit-printed i zero page h = refl
visit-printed i (suc n) page h =
    ap₂ ◌∷◌ refl (
      visit-printed (suc i) n (set page i 66) (omega (arith, length-set page i 66))
      ∙ slice-set page i n 66 (omega arith))
    ∙ sym (slice-suc page i n h)

print_all-eq-slice :
    (i n : ℕ) (page : List ℕ) → i + n ≤ length page → print_all i n page ≡ slice page i n
unfolding print_all
print_all-eq-slice i zero page h = refl
print_all-eq-slice i (suc n) page h =
    ap (λ l. get_or page i 0 ∷ l) (print_all-eq-slice (suc i) n page (omega arith))
    ∙ sym (slice-suc page i n h)

-- On a page of 4096 bytes that the driver has just made, and where open and mmap succeed, the
-- program prints 0 to 9 and then ten times 66, leaves ten times 66 at the start of the page, and
-- nothing behind changes from what the memory held before loading.
pub main-loaded :
    (memory : List ℕ)
    → length memory ≡ 2 ^ 12
    → ((main true true (loaded memory)).printed ≡ counting 0 10 ++ copies 10 66)
      × (slice (main true true (loaded memory)).page 0 10 ≡ copies 10 66)
      × (slice (main true true (loaded memory)).page 10 4086 ≡ slice memory 10 4086)
unfolding main loaded
main-loaded memory full = (
  ap₂ ◌++◌ (visit-printed 0 10 _ (omega (arith, room)) ∙ before)
      (print_all-eq-slice 0 10 _ (omega (arith, after_room)) ∙ after),
  after,
  ap (λ l. slice l 10 4086) (visit-page 0 10 (fill 0 10 memory))
      ∙ slice-blit_after (fill 0 10 memory) 10 4086 0 (copies 10 66) (omega arith)
      ∙ ap (λ l. slice l 10 4086) (fill-eq-blit 0 10 memory)
      ∙ slice-blit_after memory 10 4086 0 (counting 0 10) (omega arith),
)
  where
    room : length (fill 0 10 memory) ≡ 2 ^ 12
    room = ap length (fill-eq-blit 0 10 memory) ∙ length-blit memory 0 (counting 0 10) ∙ full

    before : slice (fill 0 10 memory) 0 10 ≡ counting 0 10
    before =
        ap (λ l. slice l 0 10) (fill-eq-blit 0 10 memory)
        ∙ slice-blit memory 0 (counting 0 10) (omega arith)

    after_room : length (visit 0 10 (fill 0 10 memory)).1 ≡ 2 ^ 12
    after_room =
        ap length (visit-page 0 10 (fill 0 10 memory))
        ∙ length-blit (fill 0 10 memory) 0 (copies 10 66)
        ∙ room

    after : slice (visit 0 10 (fill 0 10 memory)).1 0 10 ≡ copies 10 66
    after =
        ap (λ l. slice l 0 10) (visit-page 0 10 (fill 0 10 memory))
        ∙ slice-blit (fill 0 10 memory) 0 (copies 10 66) (omega (arith, room))
