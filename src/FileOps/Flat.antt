-- ===== src/FileOps/Flat.antt =====
-- What the shared-memory device promises a program: a file of a fixed size, with a position
-- for each descriptor.
use linux_dev_note.Common.{
  ℕ, ◌+◌, ◌-◌, List, [], ◌∷◌, Option, none, some, leb, if◌then◌else◌, length, take, drop, ◌++◌,
  update,
}
use linux_dev_note.Common.Int.{ℤ, pos, negsuc, minus, einval, ◌+ℤ◌}
use linux_dev_note.MutexDev.{Whence}
use linux_dev_note.FileOps.{FileCall, read_bytes, write_bytes, lseek, Answer}

pub record Flat : Type 0 where
  pub bytes : List ℕ
  pub at : ℕ

-- The position that lseek(2) asks for, as an integer without bound: SEEK_END counts from the end.
abbrev pub place : Flat → ℤ → Whence → Option ℤ
place f offset Whence.seek_set = some offset
place f offset Whence.seek_cur = some (pos f.at +ℤ offset)
place f offset Whence.seek_end = some (pos (length f.bytes) +ℤ offset)
place f offset Whence.other = none

-- A seek to a place in the file or at its end; another is refused.
abbrev pub sought : Flat → Option ℤ → Answer × Flat
sought f none = (record { ret = minus einval; out = [] }, f)
sought f (some (negsuc t)) = (record { ret = minus einval; out = [] }, f)
sought f (some (pos t)) =
    if leb t (length f.bytes)
    then (record { ret = pos t; out = [] }, record f { at = t })
    else (record { ret = minus einval; out = [] }, f)

-- Reads and writes stop at the end of the file.
unfoldable pub flat_call : FileCall → Flat → Answer × Flat
flat_call (read_bytes n) f =
    let got = take n (drop f.at f.bytes) in
    (record { ret = pos (length got); out = got }, record f { at = f.at + length got })
flat_call (write_bytes xs) f =
    let part = take (length f.bytes - f.at) xs in
    (
      record { ret = pos (length part); out = [] },
      record {
        bytes = take f.at f.bytes ++ part ++ drop (f.at + length part) f.bytes;
        at = f.at + length part;
      },
    )
flat_call (lseek offset whence) f = sought f (place f offset whence)

-- The call on a file that a call on the device comes to: the same, but that an offset from the end is
-- one less, since the driver counts it from the last byte.
abbrev pub from_last : ℤ → Whence → ℤ
from_last offset Whence.seek_end = offset +ℤ negsuc 0
from_last offset whence = offset

abbrev pub meant : FileCall → FileCall
meant (lseek offset whence) = lseek (from_last offset whence) whence
meant c = c

abbrev pub all_meant : List (ℕ × FileCall) → List (ℕ × FileCall)
all_meant [] = []
all_meant ((d, c) ∷ cs) = (d, meant c) ∷ all_meant cs

-- The file with the positions of any number of descriptors.
pub record FlatFiles : Type 0 where
  pub bytes : List ℕ
  pub at : ℕ → ℕ

unfoldable pub flat_session : List (ℕ × FileCall) → FlatFiles → List Answer × FlatFiles
unfolding flat_call
flat_session [] f = ([], f)
flat_session ((d, c) ∷ cs) f =
    let first = flat_call c (record { bytes = f.bytes; at = f.at d }) in
    let rest = flat_session cs (record { bytes = first.1.bytes; at = update f.at d first.1.at }) in
    (first.0 ∷ rest.0, rest.1)
