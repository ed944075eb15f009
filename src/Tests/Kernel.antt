-- ===== src/Tests/Kernel.antt =====
-- The bus and the notifier chain at concrete inputs.
use linux_dev_note.Sysfs.Uevent.{
  KsetCalls, IsKsetCalls, kset_test_init, kset_c, filter_line, name_line, uevent_line, env_line,
  kset_test_init-lines,
}
use linux_dev_note.Sysfs.{kset_name_text}
use linux_dev_note.MmapDev.Session.{copies}
use linux_dev_note.Common.{
  ℕ, List, ◌&&◌, ◌≡◌, ◌++◌, refl, Bool, true, false, [], ◌∷◌, if◌then◌else◌, length, arith, none,
  some, ◌==◌,
}
use linux_dev_note.Common.Int.{pos}
use linux_dev_note.Lifecycle.{is_zero}
use linux_dev_note.BusDev.{StringCalls, IsStringCalls, same_front, my_match, my_dev}
use linux_dev_note.BusDev.Match.{my_match_lem}
use linux_dev_note.Notifier.{added, seconds}
use linux_dev_note.Notifier.Unload
use linux_dev_note.Notifier.Unload.{del_timer-race}
use linux_dev_note.Notifier.Chain.{
  ChainCalls, IsChainCalls, up_to_stop, call_all, lines, call_all-seconds,
}
use linux_dev_note.Lifecycle.{Resource}
use linux_dev_note.Lifecycle.Bus.{probe}
use linux_dev_note.BusDev.Binding.{
  Modules, Reach, start, later, load_bus, load_device, load_driver, bind, Holds, binding,
}

abbrev strings : StringCalls
strings = record {
  strlen = length;
  strncmp = λ xs ys n. if same_front n xs ys then pos 0 else pos 1;
}

compared : (b : Bool) → is_zero (if b then pos 0 else pos 1) ≡ b
compared true = refl
compared false = refl

strings_law : IsStringCalls strings
strings_law = record {
  strlen_eq = λ xs. refl;
  strncmp_eq = λ xs ys n. compared (same_front n xs ys);
}

-- The bus itself is not matched with the driver: its device is "my_bus0".
bus_unmatched :
    my_match strings (b'm' ∷ b'y' ∷ b'_' ∷ b'b' ∷ b'u' ∷ b's' ∷ b'0' ∷ []) my_dev ≡ false
bus_unmatched =
    my_match_lem strings strings_law (b'm' ∷ b'y' ∷ b'_' ∷ b'b' ∷ b'u' ∷ b's' ∷ b'0' ∷ []) my_dev

-- A chain that calls its blocks one after another.
abbrev chains : ChainCalls
chains = record {
  Chain = List ℕ;
  blocks = λ h. h;
  head_init = [];
  register = λ h b. h ++ b ∷ [];
  called = λ h result. up_to_stop result h;
}

chains_law : IsChainCalls chains
chains_law = record {
  init_empty = refl;
  register_last = λ h b. refl;
  called_blocks = λ h result. refl;
}

call_all-seconds_example :
    (call_all chains (λ e b. 0) (seconds 2 added).events ≡ lines (1 ∷ 2 ∷ 3 ∷ []) 2)
    × (call_all chains (λ e b. 0x8001) (seconds 2 added).events ≡ lines (1 ∷ []) 2)
call_all-seconds_example =
    call_all-seconds chains chains_law (λ e b. 0) (λ e b. 0x8001) 2 (omega arith) (λ e b. refl)
      (λ e. refl)

-- All three modules loaded, and the device unloaded again.
abbrev both : Modules
both = record {
  bus = true;
  device = true;
  driver = true;
  bound = true;
  held = Resource.misc_321 ∷ [];
}

both-Reach : Reach strings both
unfolding bind my_match probe
both-Reach =
    later (later (later start (load_bus refl)) (load_device (pos 0) refl refl))
      (load_driver (pos 0) refl refl)

binding_example : (both.bound ≡ (both.device && both.driver)) × Holds both.bound both.held
binding_example = binding strings strings_law both-Reach

abbrev exited : Unload.System
exited = record { pending = false; handler = Unload.idle; exit = Unload.unloaded }

del_timer-race_example :
    (false ≡ false)
    × ((w : Unload.System) × Unload.Steps Unload.added w
        × (w.exit ≡ Unload.unloaded)
        × (w.pending ≡ true))
del_timer-race_example =
    del_timer-race Unload.added {u = exited} refl
      (Unload.one_more Unload.none_yet (Unload.unregister refl))

-- Its events have two variables, and the handlers are called as the kernel calls them.
abbrev kset_calls : KsetCalls
kset_calls = record {
  kset_register = λ ops obj. elim ops [
    | none ↦ []
    | some o ↦ if (o.filter obj).1 == 0 then (o.filter obj).0 else elim (o.name obj).1 [
      | none ↦ []
      | some sub ↦ (o.filter obj).0 ++ (o.name obj).0 ++ (o.uevent obj (obj ∷ sub ∷ [])).0
    ]
  ];
  environment = λ obj sub. obj ∷ sub ∷ [];
}

kset_calls_law : IsKsetCalls kset_calls
kset_calls_law = record {
  outside = λ obj. refl;
  refused =
      λ ops obj e. let test : ((ops.filter obj).1 == 0) ≡ true = ground (arith, e) in rw test refl;
  told = λ ops obj sub ne e.
      let test : ((ops.filter obj).1 == 0) ≡ false = ground (arith, ne) in rw (test, e) refl;
}

kset_test_init-lines_example :
    kset_test_init kset_calls (copies 20 7)
    ≡ filter_line kset_c
      ∷ name_line kset_c
      ∷ uevent_line kset_c
      ∷ env_line kset_c
      ∷ env_line kset_name_text
      ∷ []
kset_test_init-lines_example = kset_test_init-lines kset_calls kset_calls_law (copies 20 7) refl
