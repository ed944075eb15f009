-- ===== src/MutexDev/Mixture.antt =====
-- The copy loop of `_write` (03-fileOperate/mutex/unuseMutex/mutex_drv.c) cut in two by that of
-- another call.
use linux_dev_note.Common.{
  ℕ, ◌+◌, ◌≤◌, ◌≡◌, ◌∙◌, ap, ap₂, sym, List, ◌++◌, arith, length, take, drop, take-append-drop,
  length-take, length-drop, length-append,
}
use linux_dev_note.Common.Bytes.{slice, blit, blit-append, blit-blit_self, slice-blit, length-blit}
use linux_dev_note.UserSpace.{holding}
use linux_dev_note.MutexDev.{copy_in}
use linux_dev_note.MutexDev.Transfer.{copy_in-eq-blit, arriving, arriving-holding}

-- A head of `ys` and then the tail of `xs`, written over `ys`.
blit_mixture :
    (mem xs ys : List ℕ) (p k : ℕ)
    → length xs ≡ length ys
    → k ≤ length xs
    → blit (blit mem p ys) (p + k) (drop k xs) ≡ blit mem p (take k ys ++ drop k xs)
blit_mixture mem xs ys p k same h =
    ap (λ l. blit (blit mem p l) (p + k) (drop k xs)) (sym (take-append-drop k ys))
    ∙ ap (λ l. blit l (p + k) (drop k xs)) (blit-append mem p (take k ys) (drop k ys))
    ∙ ap (λ q. blit (blit (blit mem p (take k ys)) q (drop k ys)) (p + k) (drop k xs)) at
    ∙ blit-blit_self (blit mem p (take k ys)) (p + k) (drop k ys) (drop k xs)
        (omega (arith, length-drop k xs, length-drop k ys))
    ∙ ap (λ q. blit (blit mem p (take k ys)) q (drop k xs)) (sym at)
    ∙ sym (blit-append mem p (take k ys) (drop k xs))
  where
    at : p + length (take k ys) ≡ p + k
    at = omega (arith, length-take k ys)

-- The three pieces of the loops: `k` rounds for `xs`, all for `ys`, and the rest for `xs`.
pub loops_mixture :
    (mem xs ys : List ℕ) (p k n : ℕ)
    → length xs ≡ length ys
    → k + n ≡ length xs
    → p + length xs ≤ length mem
    → slice
        (copy_in
          (holding xs)
          p
          k
          n
          (copy_in (holding ys) p 0 (length ys) (copy_in (holding xs) p 0 k mem)))
        p
        (length xs)
      ≡ take k ys ++ drop k xs
loops_mixture mem xs ys p k n same split fits =
    ap (λ l. slice l p (length xs)) whole
    ∙ ap (slice (blit before p mixed) p) (sym long)
    ∙ slice-blit before p mixed (omega (arith, long, kept))
  where
    before : List ℕ
    before = copy_in (holding xs) p 0 k mem

    kept : length before ≡ length mem
    kept =
        ap length (copy_in-eq-blit (holding xs) p 0 k mem)
        ∙ length-blit mem (p + 0) (arriving (holding xs) mem p 0 k)

    mixed : List ℕ
    mixed = take k ys ++ drop k xs

    long : length mixed ≡ length xs
    long = omega (arith, length-append (take k ys) (drop k xs), length-take k ys, length-drop k xs)

    middle : copy_in (holding ys) p 0 (length ys) before ≡ blit before p ys
    middle =
        copy_in-eq-blit (holding ys) p 0 (length ys) before
        ∙ ap₂ (blit before) (omega arith) (arriving-holding ys before p 0 (length ys) (omega arith))

    whole :
        copy_in (holding xs) p k n (copy_in (holding ys) p 0 (length ys) before)
        ≡ blit before p mixed
    whole =
        copy_in-eq-blit (holding xs) p k n _
        ∙ ap₂ (λ l m. blit l (p + k) m) middle (arriving-holding xs _ p k n split)
        ∙ blit_mixture before xs ys p k same (omega arith)
