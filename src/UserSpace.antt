-- ===== src/UserSpace.antt =====
-- User memory as the drivers reach it through copy_from_user and copy_to_user, which the kernel
-- implements: a parameter of every handler that calls them.
use linux_dev_note.Common.{ℕ, List, Option, none, get_elem?}

-- The buffer that one system call passes, addressed by offsets from its start.
pub record UserBuffer : Type 0 where
  -- the byte that a one-byte copy_from_user fetches, or `none` where it returns nonzero
  pub fetch : ℕ → Option ℕ
  -- what such a failed copy leaves in the kernel's byte, from what stood there
  pub fault_fill : ℕ → ℕ
  -- what copy_to_user returns for a copy of that many bytes: how many it did not copy
  pub uncopied : ℕ → ℕ

-- A buffer that can be read as far as the list goes, and written everywhere.
abbrev pub holding : List ℕ → UserBuffer
holding xs = record { fetch = get_elem? xs; fault_fill = λ b. b; uncopied = λ n. 0 }

-- A buffer that no copy can write to.
abbrev pub unwritable : UserBuffer
unwritable = record { fetch = λ i. none; fault_fill = λ b. b; uncopied = λ n. n }
