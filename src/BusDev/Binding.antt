-- ===== src/BusDev/Binding.antt =====
-- The three modules of 06-bus together: the bus, its device and its driver, loaded and unloaded in any
-- order that the module loader allows (device.ko and driver.ko use my_bus_type, so bus.ko is there as
-- long as one of them is). The kernel binds a device and a driver of the bus as soon as both are
-- registered and `my_match` says so, and calls `my_probe` then, and `my_remove` when one of them goes.
use linux_dev_note.Common.{
  zero, suc, ◌≡◌, refl, sym, ◌==◌, ap, ◌∙◌, Bool, true, false, [], ◌∷◌, ◌&&◌, ◌⊎◌, inl, inr,
  if◌then◌else◌, arith,
}
use linux_dev_note.Common.Int.{ℤ, pos, negsuc}
use linux_dev_note.Lifecycle.{Held, misc_321, release, is_zero}
use linux_dev_note.Lifecycle.Bus.{probe, remove}
use linux_dev_note.BusDev.{StringCalls, IsStringCalls, my_match, my_dev}
use linux_dev_note.BusDev.Match.{my_match_lem}

-- Which modules are loaded, whether device and driver are bound, and what `my_probe` has obtained.
pub record Modules : Type 0 where
  pub bus : Bool
  pub device : Bool
  pub driver : Bool
  pub bound : Bool
  pub held : Held

-- What happens to a binding when the device or the driver is unregistered.
unfoldable pub unbind : Modules → Modules
unbind s = if s.bound then record s { bound = false; held = remove s.held } else s

module _ (c : StringCalls) where
  -- Both registered: the kernel calls `my_probe` where the names match, and they are bound where that
  -- returns 0; `result` is what misc_register returns in it.
  unfoldable pub bind : ℤ → Modules → Modules
  bind result s =
      if s.device && s.driver && my_match c my_dev my_dev
      then (let probed = probe result s.held in
          record s { bound = is_zero probed.ret; held = probed.held })
      else s

  pub data Step (s : Modules) : Modules → Type 0 where
    load_bus : s.bus ≡ false → Step s (record s { bus = true })
    unload_bus :
        s.bus ≡ true → s.device ≡ false → s.driver ≡ false → Step s (record s { bus = false })
    load_device :
        (result : ℤ)
        → s.bus ≡ true
        → s.device ≡ false
        → Step s (bind result (record s { device = true }))
    unload_device : s.device ≡ true → Step s (record (unbind s) { device = false })
    load_driver :
        (result : ℤ)
        → s.bus ≡ true
        → s.driver ≡ false
        → Step s (bind result (record s { driver = true }))
    unload_driver : s.driver ≡ true → Step s (record (unbind s) { driver = false })

  abbrev pub unloaded : Modules
  unloaded = record { bus = false; device = false; driver = false; bound = false; held = [] }

  pub data Reach : Modules → Type 0 where
    start : Reach unloaded
    later : {s u : Modules} → Reach s → Step s u → Reach u

-- What `my_probe` has obtained and `my_remove` not given back: nothing where nothing is bound, and else
-- the misc device, or nothing where misc_register has failed, which `my_probe` does not report.
abbrev pub Holds : Bool → Held → Type 0
Holds false held = held ≡ []
Holds true held = (held ≡ misc_321 ∷ []) ⊎ (held ≡ [])

pub record Inv (s : Modules) : Type 0 where
  pub bound_both : s.bound ≡ (s.device && s.driver)
  pub holds : Holds s.bound s.held

my_match-my_dev : (c : StringCalls) (law : IsStringCalls c) → my_match c my_dev my_dev ≡ true
my_match-my_dev c law = my_match_lem c law my_dev my_dev

-- A new binding.
probe-Holds : (result : ℤ) → Holds true (probe result []).held
unfolding probe
probe-Holds (pos zero) = inl refl
probe-Holds (pos (suc n)) = let test : (suc n == 0) ≡ false = ground arith in rw test (inr refl)
probe-Holds (negsuc n) = inr refl

remove-Holds : (b : Bool) (held : Held) → b ≡ true → Holds b held → remove held ≡ []
unfolding remove
remove-Holds true held e (inl h) = ap (release misc_321) h
remove-Holds true held e (inr h) = ap (release misc_321) h
remove-Holds false held e h = absurd (cc)

unbound-held : (b : Bool) (held : Held) → b ≡ false → Holds b held → held ≡ []
unbound-held true held e h = absurd (cc)
unbound-held false held e h = h

and_false : (b : Bool) → (b && false) ≡ false
and_false true = refl
and_false false = refl

module _ (c : StringCalls) (law : IsStringCalls c) where
  bind-Inv :
      (result : ℤ) (b d r u : Bool) (held : Held)
      → b ≡ true
      → u ≡ false
      → held ≡ []
      → Inv (bind c result (record { bus = b; device = d; driver = r; bound = u; held = held }))
  unfolding bind probe
  bind-Inv result false d r u held e f g = absurd (cc)
  bind-Inv result true d r true held e f g = absurd (cc)
  bind-Inv result true d r false (x ∷ held) e f g = absurd (cc)
  bind-Inv result true true true false [] e f g =
      rw (bind, my_match-my_dev c law) (record { bound_both = refl; holds = probe-Holds result })
  bind-Inv result true true false false [] e f g = record { bound_both = refl; holds = refl }
  bind-Inv result true false true false [] e f g = record { bound_both = refl; holds = refl }
  bind-Inv result true false false false [] e f g = record { bound_both = refl; holds = refl }

  unbind_device-Inv :
      (s : Modules) (u : Bool) → s.bound ≡ u → Inv s → Inv (record (unbind s) { device = false })
  unfolding unbind
  unbind_device-Inv s true e v =
      rw (unbind, e) (record { bound_both = refl; holds = remove-Holds s.bound s.held e v.holds })
  unbind_device-Inv s false e v =
      rw (unbind, e) (record { bound_both = refl; holds = unbound-held s.bound s.held e v.holds })

  unbind_driver-Inv :
      (s : Modules) (u : Bool) → s.bound ≡ u → Inv s → Inv (record (unbind s) { driver = false })
  unfolding unbind
  unbind_driver-Inv s true e v =
      rw (unbind, e)
        (record {
          bound_both = sym (and_false s.device);
          holds = remove-Holds s.bound s.held e v.holds;
        })
  unbind_driver-Inv s false e v =
      rw (unbind, e)
        (record {
          bound_both = sym (and_false s.device);
          holds = unbound-held s.bound s.held e v.holds;
        })

  Step-Inv : {s u : Modules} → Step c s u → Inv s → Inv u
  Step-Inv {s} (load_bus e) v = record { bound_both = v.bound_both; holds = v.holds }
  Step-Inv {s} (unload_bus e f g) v = record { bound_both = v.bound_both; holds = v.holds }
  Step-Inv {s} (load_device r e f) v =
      let u : s.bound ≡ false = v.bound_both ∙ ap (λ b. b && s.driver) f in
      bind-Inv r s.bus true s.driver s.bound s.held e u (unbound-held s.bound s.held u v.holds)
  Step-Inv {s} (unload_device e) v = unbind_device-Inv s s.bound refl v
  Step-Inv {s} (load_driver r e f) v =
      let u : s.bound ≡ false = v.bound_both ∙ ap (λ b. s.device && b) f ∙ and_false s.device in
      bind-Inv r s.bus s.device true s.bound s.held e u (unbound-held s.bound s.held u v.holds)
  Step-Inv {s} (unload_driver e) v = unbind_driver-Inv s s.bound refl v

  Reach-Inv : {s : Modules} → Reach c s → Inv s
  Reach-Inv start = record { bound_both = refl; holds = refl }
  Reach-Inv (later r st) = Step-Inv st (Reach-Inv r)

  -- Where string.h keeps its laws, and in whatever order the three modules are loaded and
  -- unloaded: the device and the driver are bound just when both are loaded, also where
  -- misc_register fails in `my_probe`; where they are not bound, nothing is held, and where they are,
  -- the misc device, or nothing.
  pub binding :
      {s : Modules} → Reach c s → (s.bound ≡ (s.device && s.driver)) × Holds s.bound s.held
  binding r = let v = Reach-Inv r in (v.bound_both, v.holds)
