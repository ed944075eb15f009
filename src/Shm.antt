-- ===== src/Shm.antt =====
-- The program of 01-ProcessCtrl/shareMemery_shm.c. Whether shmget, shmat and shmctl succeed is an
-- argument, and so are the 128 bytes of the segment; messages to stderr are left out.
pub mod Session
use linux_dev_note.Common.{
  ℕ, Bool, true, false, List, [], ◌∷◌, ◌++◌, Option, none, some, length, if◌then◌else◌, replicate,
}
use linux_dev_note.Common.Bytes.{blit, slice}
use linux_dev_note.Common.CString.{c_string}

-- "share memory test"
abbrev pub text : List ℕ
text =
    b's' ∷ b'h' ∷ b'a' ∷ b'r' ∷ b'e' ∷ b' ' ∷ b'm' ∷ b'e' ∷ b'm' ∷ b'o' ∷ b'r' ∷ b'y' ∷ b' ' ∷ b't'
    ∷ b'e' ∷ b's' ∷ b't' ∷ []

-- What `shm` holds when shmdt is called with it.
pub data Address : Type 0 where
  segment : Address  -- what shmat gave
  minus_one : Address  -- (void*)-1
  uninitialised : Address

-- The string printed for the segment, if any; the argument of shmdt; the segment; and whether "delete
-- shm success." is printed.
pub record Run : Type 0 where
  pub printed : Option (Option (List ℕ))
  pub detached : Address
  pub memory : List ℕ
  pub deleted : Bool

-- `str1`, 20 bytes that were set to 0, behind its memcpy, which leaves out the final 0
unfoldable pub str1 : List ℕ → List ℕ
str1 shm = blit (replicate 20 0) 0 (slice shm 0 (length text))

unfoldable pub main : Bool → Bool → Bool → List ℕ → Run
unfolding str1
main got attached removed shm =
    let written = blit shm 0 (text ++ 0 ∷ []) in
    if got
    then if attached
      then record {
        printed = some (c_string (str1 written));
        detached = segment;
        memory = written;
        deleted = removed;
      }
      else record { printed = none; detached = minus_one; memory = shm; deleted = removed }
    else record { printed = none; detached = uninitialised; memory = shm; deleted = removed }
