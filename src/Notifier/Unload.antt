-- ===== src/Notifier/Unload.antt =====
-- `notifier_function` and `myNotifier_exit` of 05-Notifier/notifier.c at the same time, on two
-- processors. del_timer takes a pending timer away and, unlike del_timer_sync, does not wait for a
-- function that is running.
use linux_dev_note.Common.{◌≡◌, refl, ap, Bool, true, false}

-- Where `notifier_function` stands.
pub data Handler : Type 0 where
  idle : Handler
  calling : Handler  -- before mod_timer
  counting : Handler  -- behind it

-- Where `myNotifier_exit` stands.
pub data Exit : Type 0 where
  loaded : Exit
  deleted : Exit  -- behind del_timer
  unloaded : Exit

pub record System : Type 0 where
  pub pending : Bool
  pub handler : Handler
  pub exit : Exit

pub data Step (s : System) : System → Type 0 where
  expires :
      s.pending ≡ true → s.handler ≡ idle → Step s (record s { pending = false; handler = calling })
  mod_timer : s.handler ≡ calling → Step s (record s { pending = true; handler = counting })
  returns : s.handler ≡ counting → Step s (record s { handler = idle })
  del_timer : s.exit ≡ loaded → Step s (record s { pending = false; exit = deleted })
  unregister : s.exit ≡ deleted → Step s (record s { exit = unloaded })

pub data Steps (s : System) : System → Type 0 where
  none_yet : Steps s s
  one_more : {u w : System} → Steps s u → Step u w → Steps s w

-- behind `myNotifier_init`
abbrev pub added : System
added = record { pending = true; handler = idle; exit = loaded }

-- Nothing sets the timer again.
abbrev is_calling : Handler → Bool
is_calling calling = true
is_calling _ = false

abbrev is_loaded : Exit → Bool
is_loaded loaded = true
is_loaded _ = false

record Quiet (s : System) : Type 0 where
  not_pending : s.pending ≡ false
  not_calling : is_calling s.handler ≡ false
  not_loaded : is_loaded s.exit ≡ false

Step-Quiet : {s u : System} → Step s u → Quiet s → Quiet u
Step-Quiet (expires e h) q = absurd (cc)
Step-Quiet (mod_timer h) q = absurd (cc)
Step-Quiet (returns h) q = record {
  not_pending = q.not_pending;
  not_calling = refl;
  not_loaded = q.not_loaded;
}
Step-Quiet (del_timer h) q = absurd (cc)
Step-Quiet (unregister h) q = record {
  not_pending = q.not_pending;
  not_calling = q.not_calling;
  not_loaded = refl;
}

Steps-Quiet : {s u : System} → Steps s u → Quiet s → Quiet u
Steps-Quiet none_yet q = q
Steps-Quiet (one_more r st) q = Step-Quiet st (Steps-Quiet r q)

-- A timer that del_timer takes away while `notifier_function` is not running is never pending again; but
-- from the loaded module there is a run in which del_timer comes while it runs, and that ends with the
-- module unloaded and the timer pending.
pub del_timer-race :
    (s : System) {u : System}
    → s.handler ≡ idle
    → Steps (record s { pending = false; exit = deleted }) u
    → (u.pending ≡ false)
      × ((w : System) × Steps added w × (w.exit ≡ unloaded) × (w.pending ≡ true))
del_timer-race s {u} h r =
    let quiet : Quiet u =
      Steps-Quiet r
        (record { not_pending = refl; not_calling = ap is_calling h; not_loaded = refl }) in
    (
      quiet.not_pending,
      (
        record { pending = true; handler = counting; exit = unloaded },
        one_more
            (one_more (one_more (one_more none_yet (expires refl refl)) (del_timer refl))
              (mod_timer refl))
            (unregister refl),
        refl,
        refl,
      ),
    )
