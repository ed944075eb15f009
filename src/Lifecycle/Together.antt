-- ===== src/Lifecycle/Together.antt =====
-- The device and the driver of 06-bus among the modules loaded and unloaded in any order: when the
-- kernel has them bound.
use linux_dev_note.Common.{
  ◌≡◌, refl, ap, sym, ◌∙◌, arith, Bool, true, false, List, [], ◌∷◌, Option, none, some,
  if◌then◌else◌, ◌==◌, ==_iff, Bool-cases, inl, inr, ℕ_discrete, get_or, ◌&&◌, ◌||◌, subst,
}
use linux_dev_note.Lifecycle.{Held, is_zero}
use linux_dev_note.Lifecycle.Bus.{probe}
use linux_dev_note.Lifecycle.Modules.{
  Module, char_drv, misc_drv, file_operate_drv, mutex_drv, semaphore_drv, queue_wait_dev,
  notifier_module, bus_module, bus_device, bus_driver, kobject_module, kset_module, platform_device,
  platform_driver, kernal_signal, mmap_drv, block_device, Answer, load, unload, number, has,
  without, Kernel, Event, loads, unloads, happen, run, unused, with_bus, probe_free, attach,
  remove_bound, detach, both_there,
}

abbrev all : List Module
all =
    char_drv ∷ misc_drv ∷ file_operate_drv ∷ mutex_drv ∷ semaphore_drv ∷ queue_wait_dev
    ∷ notifier_module ∷ bus_module ∷ bus_device ∷ bus_driver ∷ kobject_module ∷ kset_module
    ∷ platform_device ∷ platform_driver ∷ kernal_signal ∷ mmap_drv ∷ block_device ∷ []

all-number : (m : Module) → get_or all (number m) char_drv ≡ m
all-number m = elim m as (λ m'. get_or all (number m') char_drv ≡ m') [ char_drv ↦ refl | _ ↦ refl ]

pub number_injective : (m x : Module) → number m ≡ number x → m ≡ x
number_injective m x e = sym (all-number m) ∙ ap (λ n. get_or all n char_drv) e ∙ all-number x

pub happen-loads :
    (m : Module) (a b : Answer) (k : Kernel)
    → has m k.loaded ≡ false
    → happen (loads m a b) k
      ≡ attach m a
          (if is_zero (load m a b k.held).ret then m ∷ k.loaded else k.loaded)
          k.bound
          (load m a b k.held).held
unfolding happen
happen-loads m a b k f = rw f refl

pub happen-loads_had :
    (m : Module) (a b : Answer) (k : Kernel) → has m k.loaded ≡ true → happen (loads m a b) k ≡ k
unfolding happen
happen-loads_had m a b k t = rw t refl

-- What an unload leaves of the kernel behind `detach`.
abbrev pub taken_off : Module → Kernel → Kernel
taken_off m d = record { held = unload m d.held; loaded = without m d.loaded; bound = d.bound }

pub happen-unloads_true :
    (m : Module) (k : Kernel)
    → has m k.loaded ≡ true
    → happen (unloads m) k ≡ taken_off m (detach m k.loaded k.bound k.held)
unfolding happen
happen-unloads_true m k t = rw t refl

pub happen-unloads_false :
    (m : Module) (k : Kernel) → has m k.loaded ≡ false → happen (unloads m) k ≡ k
unfolding happen
happen-unloads_false m k f = rw f refl

-- No module is loaded twice.
abbrev Distinct : List Module → Type 0
Distinct [] = Unit {0}
Distinct (x ∷ xs) = (has x xs ≡ false) × Distinct xs

neither : (a b : Bool) → (a || b) ≡ false → (a ≡ false) × (b ≡ false)
neither a b h = ground arith

has-without_absent :
    (m y : Module) (ms : List Module) → has y ms ≡ false → has y (without m ms) ≡ false
has-without_absent m y [] h = refl
has-without_absent m y (x ∷ xs) h =
    let (differs, absent) = neither (number y == number x) (has y xs) h in
    elim (Bool-cases (number m == number x)) [
      | inl t ↦ rw t absent
      | inr f ↦ rw (f, differs) (has-without_absent m y xs absent)
    ]

has-without_other :
    (m y : Module) (ms : List Module)
    → (number y == number m) ≡ false
    → has y (without m ms) ≡ has y ms
has-without_other m y [] ne = refl
has-without_other m y (x ∷ xs) ne = elim (Bool-cases (number m == number x)) [
  | inl t ↦
      let other : (number y == number x) ≡ false =
        subst (λ n. (number y == n) ≡ false) ((==_iff _ _).0 t) ne in
      rw (t, other) refl
  | inr f ↦ rw f (ap (λ b. number y == number x || b) (has-without_other m y xs ne))
]

has-without_self : (m : Module) (ms : List Module) → Distinct ms → has m (without m ms) ≡ false
has-without_self m [] d = refl
has-without_self m (x ∷ xs) d = elim (ℕ_discrete (number m) (number x)) [
  | yes e ↦
      let test : (number m == number x) ≡ true = (==_iff _ _).1 e in
      rw test (subst (λ q. has q xs ≡ false) (sym (number_injective m x e)) d.0)
  | no ne ↦
      let test : (number m == number x) ≡ false = ground arith in
      rw (test, test) (has-without_self m xs d.1)
]

Distinct-without : (m : Module) (ms : List Module) → Distinct ms → Distinct (without m ms)
Distinct-without m [] d = tt
Distinct-without m (x ∷ xs) d = elim (Bool-cases (number m == number x)) [
  | inl t ↦ rw t d.1
  | inr f ↦ rw f (has-without_absent m x xs d.0, Distinct-without m xs d.1)
]

abbrev pub is_bound : Option Answer → Bool
is_bound none = false
is_bound (some a) = true

pub attach-loaded :
    (m : Module) (a : Answer) (ms : List Module) (b : Option Answer) (s : Held)
    → (attach m a ms b s).loaded ≡ ms
unfolding attach probe_free
attach-loaded m a ms none s = ground arith
attach-loaded m a ms (some x) s = ground arith

attach-is_bound :
    (m : Module) (a : Answer) (ms : List Module) (b : Option Answer) (s : Held)
    → is_bound (attach m a ms b s).bound ≡ (is_bound b || (with_bus m && both_there ms))
unfolding attach probe_free probe
attach-is_bound m a ms none s = ground arith
attach-is_bound m a ms (some x) s = ground arith

pub detach-loaded :
    (m : Module) (ms : List Module) (b : Option Answer) (s : Held) → (detach m ms b s).loaded ≡ ms
unfolding detach remove_bound
detach-loaded m ms none s = ground arith
detach-loaded m ms (some x) s = ground arith

detach-is_bound :
    (m : Module) (ms : List Module) (b : Option Answer) (s : Held)
    → is_bound (detach m ms b s).bound ≡ (if with_bus m then false else is_bound b)
unfolding detach remove_bound
detach-is_bound m ms none s = ground arith
detach-is_bound m ms (some x) s = ground arith

-- A module more, and one less.
more-both :
    (m : Module) (ms : List Module) (x : Bool)
    → has m ms ≡ false
    → x ≡ both_there ms
    → (x || (with_bus m && both_there (m ∷ ms))) ≡ both_there (m ∷ ms)
more-both bus_device ms x h e = ground arith
more-both bus_driver ms x h e = ground arith
more-both m ms x h e = ground arith

same-both :
    (m : Module) (ms : List Module) (x : Bool)
    → x ≡ both_there ms
    → (x || (with_bus m && both_there ms)) ≡ both_there ms
same-both m ms x e = ground arith

less-both :
    (m : Module) (ms : List Module) (x : Bool)
    → Distinct ms
    → x ≡ both_there ms
    → (if with_bus m then false else x) ≡ both_there (without m ms)
less-both bus_device ms x d e = ground (arith, has-without_self bus_device ms d)
less-both bus_driver ms x d e = ground (arith, has-without_self bus_driver ms d)
less-both m ms x d e =
    ground (arith, has-without_other m bus_device ms, has-without_other m bus_driver ms)

record Inv (k : Kernel) : Type 0 where
  distinct : Distinct k.loaded
  bound_both : is_bound k.bound ≡ both_there k.loaded

attach-Inv :
    (m : Module) (a : Answer) (ms : List Module) (b : Option Answer) (s : Held)
    → Distinct ms
    → (is_bound b || (with_bus m && both_there ms)) ≡ both_there ms
    → Inv (attach m a ms b s)
attach-Inv m a ms b s d e =
    let ms_eq = attach-loaded m a ms b s in
    record {
      distinct = subst Distinct (sym ms_eq) d;
      bound_both = attach-is_bound m a ms b s ∙ e ∙ ap both_there (sym ms_eq);
    }

happen-Inv : (e : Event) (k : Kernel) → Inv k → Inv (happen e k)
happen-Inv (loads m a b) k v = elim (Bool-cases (has m k.loaded)) [
  | inl t ↦ subst Inv (sym (happen-loads_had m a b k t)) v
  | inr f ↦
      let l = load m a b k.held in
      subst Inv (sym (happen-loads m a b k f)) (elim (Bool-cases (is_zero l.ret)) [
        | inl t ↦ rw t (
            attach-Inv m a (m ∷ k.loaded) k.bound l.held (f, v.distinct)
              (more-both m k.loaded (is_bound k.bound) f v.bound_both))
        | inr t ↦ rw t (
            attach-Inv m a k.loaded k.bound l.held v.distinct
              (same-both m k.loaded (is_bound k.bound) v.bound_both))
      ])
]
happen-Inv (unloads m) k v = elim (Bool-cases (has m k.loaded)) [
  | inl t ↦
      let ms_eq = detach-loaded m k.loaded k.bound k.held in
      subst Inv (sym (happen-unloads_true m k t)) (record {
        distinct =
            subst (λ ms. Distinct (without m ms)) (sym ms_eq)
              (Distinct-without m k.loaded v.distinct);
        bound_both =
            detach-is_bound m k.loaded k.bound k.held
            ∙ less-both m k.loaded (is_bound k.bound) v.distinct v.bound_both
            ∙ ap (λ ms. both_there (without m ms)) (sym ms_eq);
      })
  | inr f ↦ subst Inv (sym (happen-unloads_false m k f)) v
]

run-Inv : (es : List Event) (k : Kernel) → Inv k → Inv (run es k)
run-Inv [] k v = v
run-Inv (e ∷ es) k v = run-Inv es (happen e k) (happen-Inv e k v)

-- They are bound just while both are loaded.
pub run-both_there :
    (es : List Event) → is_bound (run es unused).bound ≡ both_there (run es unused).loaded
run-both_there es = (run-Inv es unused (record { distinct = tt; bound_both = refl })).bound_both
