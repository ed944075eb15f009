-- ===== src/Sysfs/Show.antt =====
-- What the readers of the attributes get.
use linux_dev_note.Common.{
  ℕ, zero, suc, ◌+◌, ◌≤◌, ◌≡◌, refl, ap, ap₂, sym, ◌∙◌, List, [], ◌∷◌, ◌++◌, length, arith, take,
  length-append, take-length, get_elem?-eq-get_or,
}
use linux_dev_note.Common.Int.{pos}
use linux_dev_note.Common.Bytes.{blit, slice, slice-blit, slice-blit_before, blit-append, drop-cons}
use linux_dev_note.Sysfs.{
  page_size, kobj_test_show, mydev_show, mydriver_show, show_bus_version, device_text, driver_text,
  version, delivered, log_env, kset_uevent,
}

-- The first bytes of what has been written to the start of a page.
front :
    (page xs ys : List ℕ)
    → length xs + length ys ≤ length page
    → slice (blit page 0 (xs ++ ys)) 0 (length xs) ≡ xs
front page xs ys h =
    ap (λ l. slice l 0 (length xs)) (blit-append page 0 xs ys)
    ∙ slice-blit_before (blit page 0 xs) 0 (length xs) (0 + length xs) ys (omega arith)
    ∙ slice-blit page 0 xs (omega arith)

-- In a page of 4096 bytes: the attributes of the bus, its device and its driver are read as their text
-- and a newline; that of the kobject is read as its name, a newline and, since the result is one too
-- large, the final 0 of the string.
delivered_lem :
    (page name : List ℕ)
    → length page ≡ page_size
    → length name + 2 ≤ page_size
    → (delivered (show_bus_version page) ≡ version ++ 10 ∷ [])
      × (delivered (mydev_show page) ≡ device_text ++ 10 ∷ [])
      × (delivered (mydriver_show page) ≡ driver_text ++ 10 ∷ [])
      × (delivered (kobj_test_show page name) ≡ name ++ 10 ∷ 0 ∷ [])
unfolding show_bus_version mydev_show mydriver_show kobj_test_show
delivered_lem page name e h = (
  front page (version ++ 10 ∷ []) (0 ∷ []) (omega arith),
  front page (device_text ++ 10 ∷ []) (0 ∷ []) (omega arith),
  front page (driver_text ++ 10 ∷ []) (0 ∷ []) (omega arith),
  ap (slice (blit page 0 (name ++ 10 ∷ 0 ∷ [])) 0) (sym (length-append name (10 ∷ 0 ∷ [])))
      ∙ slice-blit page 0 (name ++ 10 ∷ 0 ∷ []) (omega (arith, length-append name (10 ∷ 0 ∷ []))),
)

log_env-eq-slice :
    (envp : List (List ℕ)) (i n : ℕ) → i + n ≤ length envp → log_env envp i n ≡ slice envp i n
unfolding log_env
log_env-eq-slice envp i zero h = refl
log_env-eq-slice envp i (suc n) h =
    rw (log_env, get_elem?-eq-get_or envp i [] (omega arith))
      (ap₂ ◌∷◌ refl (log_env-eq-slice envp (suc i) n (omega arith))
        ∙ sym (ap (take (suc n)) (drop-cons envp i [] (omega arith))))

-- For an event with as many variables as its index says, the kset logs all of them, in order, and
-- returns 0.
pub kset_uevent_lem : (envp : List (List ℕ)) → kset_uevent envp (length envp) ≡ (pos 0, envp)
unfolding kset_uevent
kset_uevent_lem envp =
    ap (λ l. (pos 0, l))
      (log_env-eq-slice envp 0 (length envp) (omega arith)
        ∙ take-length envp (length envp) (omega arith))
