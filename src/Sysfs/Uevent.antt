-- ===== src/Sysfs/Uevent.antt =====
-- What the handlers of 07-kobject/kset.c log while kset_test_init registers the two ksets. The kernel
-- raises an event for each, and hands it to the uevent_ops of the kset that the object is in:
-- an interface, after Documentation/kobject.txt.
use linux_dev_note.Common.{
  ℕ, ◌≤◌, ◌≡◌, ◌≢◌, refl, List, [], ◌∷◌, ◌++◌, map, Option, none, some, arith, length,
}
use linux_dev_note.Common.Int.{ℤ}
use linux_dev_note.Common.CString.{c_string, c_string-blit}
use linux_dev_note.Sysfs.{kset_filter, kset_name, kset_name_text, kset_uevent}
use linux_dev_note.Sysfs.Show.{kset_uevent_lem}

-- the lines logged, with the name of the object or a variable of the event
pub data Line : Type 0 where
  filter_line name_line uevent_line env_line : List ℕ → Line

-- struct kset_uevent_ops: what each handler logs, and its result; `name` gives a string.
pub record UeventOps : Type 0 where
  pub filter : List ℕ → List Line × ℕ
  pub name : List ℕ → List Line × Option (List ℕ)
  pub uevent : List ℕ → List (List ℕ) → List Line × ℤ

-- kset_register of an object, with the operations of the kset that it is in: what these log.
-- `environment` is what the kernel tells of an object with this name in this subsystem.
pub record KsetCalls : Type 0 where
  pub kset_register : Option UeventOps → List ℕ → List Line
  pub environment : List ℕ → List ℕ → List (List ℕ)

pub record IsKsetCalls (c : KsetCalls) : Type 0 where
  pub outside : (obj : List ℕ) → c.kset_register none obj ≡ []
  pub refused :
      (ops : UeventOps) (obj : List ℕ)
      → (ops.filter obj).1 ≡ 0
      → c.kset_register (some ops) obj ≡ (ops.filter obj).0
  pub told :
      (ops : UeventOps) (obj subsystem : List ℕ)
      → (ops.filter obj).1 ≢ 0
      → (ops.name obj).1 ≡ some subsystem
      → c.kset_register (some ops) obj
        ≡ (ops.filter obj).0 ++ (ops.name obj).0 ++ (ops.uevent obj (c.environment obj subsystem)).0

-- `uevent_ops`; `buf` is what the static array of kset_name holds.
abbrev pub uevent_ops : List ℕ → UeventOps
uevent_ops buf = record {
  filter = λ obj. (filter_line obj ∷ [], kset_filter);
  name = λ obj. (name_line obj ∷ [], c_string (kset_name buf));
  uevent = λ obj envp.
      let r = kset_uevent envp (length envp) in (uevent_line obj ∷ map env_line r.1, r.0);
}

abbrev pub kset_p : List ℕ
kset_p = b'k' ∷ b's' ∷ b'e' ∷ b't' ∷ b'_' ∷ b'p' ∷ []

abbrev pub kset_c : List ℕ
kset_c = b'k' ∷ b's' ∷ b'e' ∷ b't' ∷ b'_' ∷ b'c' ∷ []

-- `kset_test_init`: kset_p is in no kset, and kset_c in kset_p.
unfoldable pub kset_test_init : KsetCalls → List ℕ → List Line
kset_test_init c buf = c.kset_register none kset_p ++ c.kset_register (some (uevent_ops buf)) kset_c

name-text : (buf : List ℕ) → 10 ≤ length buf → c_string (kset_name buf) ≡ some kset_name_text
unfolding kset_name
name-text buf h = c_string-blit buf kset_name_text (omega arith) (omega arith)

-- Where the kernel keeps its laws, and whatever the array of 20 bytes held: loading logs the event of
-- kset_c and no other, by the filter, the name, and then the event with all its variables, in their
-- order, which are those of the subsystem "kset_name".
pub kset_test_init-lines :
    (c : KsetCalls) (law : IsKsetCalls c) (buf : List ℕ)
    → length buf ≡ 20
    → kset_test_init c buf
      ≡ filter_line kset_c
        ∷ name_line kset_c
        ∷ uevent_line kset_c
        ∷ map env_line (c.environment kset_c kset_name_text)
unfolding kset_test_init kset_filter
kset_test_init-lines c law buf h =
    rw
      (
        kset_test_init,
        law.outside kset_p,
        law.told (uevent_ops buf) kset_c kset_name_text (λ e. omega (arith, e))
            (name-text buf (omega arith)),
        kset_uevent_lem (c.environment kset_c kset_name_text),
      )
      refl
