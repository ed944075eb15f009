-- ===== src/Sysfs.antt =====
-- The handlers of sysfs attributes: kobj_test_show and kobj_test_store of 07-kobject/kobject.c,
-- show_bus_version of 06-bus/bus.c, mydev_show of 06-bus/device.c and mydriver_show of 06-bus/driver.c;
-- and the uevent handlers of 07-kobject/kset.c. Each show handler fills a page and returns a number, and
-- sysfs hands so many bytes of the page to the reader.
pub mod Show
pub mod Uevent
use linux_dev_note.Common.{
  ℕ, zero, suc, get_elem?, ◌+◌, ◌-◌, ◌<◌, Bool, List, [], ◌∷◌, ◌++◌, map, Option, none, some,
  length, take, min, ltb, if◌then◌else◌,
}
use linux_dev_note.Common.Int.{ℤ, pos}
use linux_dev_note.Common.Bytes.{blit, slice}

-- PAGE_SIZE
abbrev pub page_size : ℕ
page_size = 4096

-- The number returned, and the page.
pub record Shown : Type 0 where
  pub ret : ℕ
  pub page : List ℕ

-- sprintf(buf, "%s\n", s): it returns the length of what it has written, without the final 0
abbrev pub sprintf_line : List ℕ → List ℕ → Shown
sprintf_line page s = record { ret = length s + 1; page = blit page 0 (s ++ 10 ∷ 0 ∷ []) }

-- snprintf(buf, size, "%s\n", s): it writes at most `size` bytes, the last of them 0, and returns what
-- sprintf would
abbrev pub snprintf_line : List ℕ → ℕ → List ℕ → Shown
snprintf_line page size s = record {
  ret = length s + 1;
  page = blit page 0 (take (size - 1) (s ++ 10 ∷ []) ++ 0 ∷ []);
}

-- `kobj_test_show` of an attribute with this name: the result is computed by itself
unfoldable pub kobj_test_show : List ℕ → List ℕ → Shown
kobj_test_show page name = record (sprintf_line page name) { ret = length name + 2 }

-- "This is my device!", "This is my driver!" and "$Revision: 1.9 $"
abbrev pub device_text : List ℕ
device_text =
    b'T' ∷ b'h' ∷ b'i' ∷ b's' ∷ b' ' ∷ b'i' ∷ b's' ∷ b' ' ∷ b'm' ∷ b'y' ∷ b' ' ∷ b'd' ∷ b'e' ∷ b'v'
    ∷ b'i' ∷ b'c' ∷ b'e' ∷ b'!' ∷ []

abbrev pub driver_text : List ℕ
driver_text =
    b'T' ∷ b'h' ∷ b'i' ∷ b's' ∷ b' ' ∷ b'i' ∷ b's' ∷ b' ' ∷ b'm' ∷ b'y' ∷ b' ' ∷ b'd' ∷ b'r' ∷ b'i'
    ∷ b'v' ∷ b'e' ∷ b'r' ∷ b'!' ∷ []

abbrev pub version : List ℕ
version =
    b'$' ∷ b'R' ∷ b'e' ∷ b'v' ∷ b'i' ∷ b's' ∷ b'i' ∷ b'o' ∷ b'n' ∷ b':' ∷ b' ' ∷ b'1' ∷ b'.' ∷ b'9'
    ∷ b' ' ∷ b'$' ∷ []

unfoldable pub mydev_show : List ℕ → Shown
mydev_show page = sprintf_line page device_text

unfoldable pub mydriver_show : List ℕ → Shown
mydriver_show page = sprintf_line page driver_text

unfoldable pub show_bus_version : List ℕ → Shown
show_bus_version page = snprintf_line page page_size version

-- what the reader of the attribute gets
abbrev pub delivered : Shown → List ℕ
delivered r = slice r.page 0 r.ret

-- `kobj_test_store`: the result
unfoldable pub kobj_test_store : ℕ → ℤ
kobj_test_store count = pos count

-- `kset_filter` lets every event pass, `kset_name` names the subsystem, and `kset_uevent` logs the
-- environment of the event, up to its index.
unfoldable pub kset_filter : ℕ
kset_filter = 1

abbrev pub kset_name_text : List ℕ
kset_name_text = b'k' ∷ b's' ∷ b'e' ∷ b't' ∷ b'_' ∷ b'n' ∷ b'a' ∷ b'm' ∷ b'e' ∷ []

-- the static `buf` of `kset_name`, behind a call
unfoldable pub kset_name : List ℕ → List ℕ
kset_name buf = blit buf 0 (kset_name_text ++ 0 ∷ [])

-- the loop of `kset_uevent` from index `i` on, with `n` rounds left: the lines logged
unfoldable pub log_env : List (List ℕ) → ℕ → ℕ → List (List ℕ)
log_env envp i zero = []
log_env envp i (suc n) = elim (get_elem? envp i) [ none ↦ [] | some s ↦ s ∷ log_env envp (suc i) n ]

unfoldable pub kset_uevent : List (List ℕ) → ℕ → ℤ × List (List ℕ)
unfolding log_env
kset_uevent envp envp_idx = (pos 0, log_env envp 0 envp_idx)
