-- ===== src/Shm/Session.antt =====
-- What the program of 01-ProcessCtrl/shareMemery_shm.c prints, and what it hands to shmdt.
use linux_dev_note.Common.{
  ℕ, ◌≡◌, refl, ap, Bool, true, false, List, [], ◌∷◌, ◌++◌, none, some, length, arith, replicate,
}
use linux_dev_note.Common.Bytes.{blit, slice, slice-blit, slice-blit_after}
use linux_dev_note.Common.CString.{c_string, blit-front}
use linux_dev_note.Shm.{text, segment, uninitialised, str1, main}

str1-string :
    (shm : List ℕ) → length shm ≡ 128 → c_string (str1 (blit shm 0 (text ++ 0 ∷ []))) ≡ some text
unfolding str1 c_string blit
str1-string shm e =
    ap (λ l. c_string (blit (replicate 20 0) 0 (slice l 0 (length text))))
      (blit-front shm (text ++ 0 ∷ []) (omega arith))

-- Where the segment of 128 bytes is attached, the program prints exactly "share memory test", whatever
-- the segment held, leaves it and its final 0 at the start, changes nothing behind, and detaches the
-- segment; where shmget fails it prints no string and hands a pointer to shmdt that was never set.
main_lem :
    (shm : List ℕ) (attached removed : Bool)
    → length shm ≡ 128
    → ((main true true removed shm).printed ≡ some (some text))
      × (slice (main true true removed shm).memory 0 18 ≡ text ++ 0 ∷ [])
      × (slice (main true true removed shm).memory 18 110 ≡ slice shm 18 110)
      × ((main true true removed shm).detached ≡ segment)
      × ((main false attached removed shm).printed ≡ none)
      × ((main false attached removed shm).detached ≡ uninitialised)
unfolding main
main_lem shm attached removed e = (
  ap some (str1-string shm e),
  slice-blit shm 0 (text ++ 0 ∷ []) (omega arith),
  slice-blit_after shm 18 110 0 (text ++ 0 ∷ []) (omega arith),
  refl,
  refl,
  refl,
)
