-- ===== src/Lifecycle/Probed.antt =====
-- The misc device of 06-bus/driver.c among the kernel objects held: `my_probe` registers it and `my_remove`
-- takes it off, and no module has to do with it else.
use linux_dev_note.Common.{
  ◌+◌, ◌-◌, ◌≤◌, ◌≡◌, refl, ap, sym, subst, ◌∙◌, arith, false, List, [], ◌∷◌, Option, none, some,
  if◌then◌else◌, Bool-cases, inl, inr, ◌&&◌,
}
use linux_dev_note.Lifecycle.{Resource, Held, is_zero, misc_321, release, same}
use linux_dev_note.Lifecycle.Bus.{probe, remove}
use linux_dev_note.Lifecycle.Bag.{count, hit, count-append, count-release, count-release_all}
use linux_dev_note.Lifecycle.Modules.{
  Module, mutex_drv, mmap_drv, bus_module, Answer, succeeds, fails, load, unload, has, Kernel,
  Event, loads, unloads, happen, with_bus, probe_free, attach, remove_bound, detach, both_there,
}
use linux_dev_note.Lifecycle.Needs.{needs, left_by_load, returned, load-takes, unload-returned}
use linux_dev_note.Lifecycle.Together.{
  happen-loads, happen-loads_had, happen-unloads_true, happen-unloads_false,
}

-- What `my_probe` has obtained for the binding: the misc device, where misc_register has succeeded.
abbrev pub got_by : Option Answer → Held
got_by (some succeeds) = misc_321 ∷ []
got_by (some (fails e)) = []
got_by none = []

needs-none : (m : Module) → count misc_321 (needs m) ≡ 0
needs-none m = elim m as (λ m'. count misc_321 (needs m') ≡ 0) [ mutex_drv ↦ refl | _ ↦ refl ]

returned-none : (m : Module) → count misc_321 (returned m) ≡ 0
returned-none m = elim m as (λ m'. count misc_321 (returned m') ≡ 0) [ mutex_drv ↦ refl | _ ↦ refl ]

left_by_load-none : (m : Module) (a b : Answer) → count misc_321 (left_by_load m a b) ≡ 0
left_by_load-none mutex_drv succeeds b = refl
left_by_load-none mutex_drv (fails e) b = refl
left_by_load-none mmap_drv succeeds b = refl
left_by_load-none mmap_drv (fails e) b = refl
left_by_load-none bus_module succeeds succeeds = refl
left_by_load-none bus_module succeeds (fails e) = refl
left_by_load-none bus_module (fails e) b = refl
left_by_load-none m a b = refl

same_sym : (a b : Resource) → same a b ≡ same b a
same_sym a b = ground arith

-- misc_deregister of a device that is not there.
release-absent : (q : Resource) (s : Held) → count q s ≡ 0 → release q s ≡ s
release-absent q [] h = refl
release-absent q (x ∷ xs) h = elim (Bool-cases (same q x)) [
  | inl t ↦ let one : hit q x ≡ 1 = rw t refl in absurd (omega arith)
  | inr f ↦
      let other : same x q ≡ false = same_sym x q ∙ f in
      let less : count q xs ≡ 0 = omega arith in
      rw other (ap (λ l. x ∷ l) (release-absent q xs less))
]

module _ (r : Resource) where
  pub load-count :
      (m : Module) (a b : Answer) (s : Held)
      → count r (load m a b s).held
        ≡ count r (if is_zero (load m a b s).ret then needs m else left_by_load m a b) + count r s
  load-count m a b s = ap (count r) (load-takes m a b s) ∙ count-append r _ s

  pub unload-count :
      (m : Module) (s : Held) → count r (unload m s) ≡ count r s - count r (returned m)
  unload-count m s = ap (count r) (unload-returned m s) ∙ count-release_all r (returned m) s

  -- Unbinding takes off what `my_probe` has obtained.
  pub remove_bound-count :
      (ms : List Module) (b : Option Answer) (s : Held)
      → count misc_321 s ≡ count misc_321 (got_by b)
      → count r (remove_bound ms b s).held ≡ count r s - count r (got_by b)
  unfolding remove_bound remove
  remove_bound-count ms none s only = omega arith
  remove_bound-count ms (some succeeds) s only = omega (arith, count-release r misc_321 s)
  remove_bound-count ms (some (fails e)) s only =
      ap (count r) (release-absent misc_321 s only) ∙ omega arith

  -- Binding adds it.
  pub probe_free-count :
      (a : Answer) (ms : List Module) (b : Option Answer) (s : Held)
      → count r (probe_free a ms b s).held + count r (got_by b)
        ≡ count r s + count r (got_by (probe_free a ms b s).bound)
  unfolding probe_free probe
  probe_free-count a ms (some x) s = refl
  probe_free-count succeeds ms none s = omega arith
  probe_free-count (fails e) ms none s = refl

  pub attach-count :
      (m : Module) (a : Answer) (ms : List Module) (b : Option Answer) (s : Held)
      → count r (attach m a ms b s).held + count r (got_by b)
        ≡ count r s + count r (got_by (attach m a ms b s).bound)
  unfolding attach
  attach-count m a ms b s = elim (Bool-cases (with_bus m && both_there ms)) [
    | inl t ↦ rw t (probe_free-count a ms b s)
    | inr f ↦ rw f refl
  ]

remove_bound-bound :
    (ms : List Module) (b : Option Answer) (s : Held) → (remove_bound ms b s).bound ≡ none
unfolding remove_bound
remove_bound-bound ms none s = refl
remove_bound-bound ms (some x) s = refl

pub detach-count :
    (r : Resource) (m : Module) (ms : List Module) (b : Option Answer) (s : Held)
    → count misc_321 s ≡ count misc_321 (got_by b)
    → count r (got_by b) ≤ count r s
    → count r (detach m ms b s).held + count r (got_by b)
      ≡ count r s + count r (got_by (detach m ms b s).bound)
unfolding detach
detach-count r m ms b s only le = elim (Bool-cases (with_bus m)) [
  | inl t ↦
      let taken = remove_bound-count r ms b s only in
      rw (t, remove_bound-bound ms b s) (omega arith)
  | inr f ↦ rw f refl
]

-- Of that device there is what the binding has obtained.
abbrev pub Only : Kernel → Type 0
Only k = count misc_321 k.held ≡ count misc_321 (got_by k.bound)

pub happen-Only : (e : Event) (k : Kernel) → Only k → Only (happen e k)
happen-Only (loads m a b) k h = elim (Bool-cases (has m k.loaded)) [
  | inl t ↦ subst Only (sym (happen-loads_had m a b k t)) h
  | inr f ↦
      let l = load m a b k.held in
      let ms = if is_zero l.ret then m ∷ k.loaded else k.loaded in
      let bound = attach-count misc_321 m a ms k.bound l.held in
      let loaded = load-count misc_321 m a b k.held in
      let nothing : count misc_321 (if is_zero l.ret then needs m else left_by_load m a b) ≡ 0 =
        elim (Bool-cases (is_zero l.ret)) [
          | inl t ↦ rw t (needs-none m)
          | inr t ↦ rw t (left_by_load-none m a b)
        ] in
      subst Only (sym (happen-loads m a b k f)) (omega arith)
]
happen-Only (unloads m) k h = elim (Bool-cases (has m k.loaded)) [
  | inl t ↦
      let d = detach m k.loaded k.bound k.held in
      let freed = detach-count misc_321 m k.loaded k.bound k.held h (omega arith) in
      let back = unload-count misc_321 m d.held in
      let nothing = returned-none m in subst Only (sym (happen-unloads_true m k t)) (omega arith)
  | inr f ↦ subst Only (sym (happen-unloads_false m k f)) h
]
