-- ===== src/FileOps/Step.antt =====
-- One call on the shared-memory device behind its `file_operations`, against the same call on a file
-- of a fixed size.
use linux_dev_note.Common.{
  false, true, zero, suc, Option, none, dec_le, ◌%◌, ◌^◌, ℕ, ◌+◌, ◌-◌, ◌≤◌, ◌≡◌, refl, ap, ap₂, sym,
  ◌∙◌, List, [], ◌++◌, some, arith, length, take, drop, min, leb, length-take, length-drop,
  take-min,
}
use linux_dev_note.Common.Int.{ℤ, pos, negsuc, ltb_ℤ, ◌+ℤ◌}
use linux_dev_note.Common.Bytes.{slice, blit, length-blit}
use linux_dev_note.Common.CString.{blit-split}
use linux_dev_note.UserSpace.{holding}
use linux_dev_note.MutexDev
use linux_dev_note.MutexDev.{Share, Reply, Whence, mem_size, fetched}
use linux_dev_note.MutexDev.Transfer.{arriving, arriving-take, read_lem, write_lem}
use linux_dev_note.MutexDev.Seek.{IsLoff, target, seek_spec, llseek_lem}
use linux_dev_note.FileOps.{
  Vfs, IsVfs, FileCall, read_bytes, write_bytes, lseek, Answer, File, max_rw_count, call, settled,
  returns, answered,
}
use linux_dev_note.FileOps.Tables.{mutex_fops, mutex_read, mutex_write}
use linux_dev_note.FileOps.Flat.{sought, flat_call, place, from_last, meant}

settled-pos :
    {S : Type 0} (s : S) (p q : ℤ) (k : ℕ) (out : List ℕ)
    → settled p (returns (record { state = s; ret = pos k; loff = q; out = out }))
      ≡ returns (record { state = s; ret = pos k; loff = q; out = out })
settled-pos s p q k out = let test : ltb_ℤ (pos k) (pos 0) ≡ false = ground arith in rw test refl

-- The counts and offsets that a program passes.
abbrev pub InRange : FileCall → Type 0
InRange (read_bytes n) = n ≤ max_rw_count
InRange (write_bytes xs) = length xs ≤ max_rw_count
InRange (lseek offset whence) = IsLoff offset

from_end : (offset : ℤ) → pos (mem_size - 1) +ℤ offset ≡ pos mem_size +ℤ (offset +ℤ negsuc 0)
from_end (pos zero) = refl
from_end (pos (suc n)) = ground arith
from_end (negsuc n) = ground arith

-- What a step of a session leaves.
pub record Called (v : Vfs) (c : FileCall) (sh : Share) (p : ℕ) : Type 0 where
  pub state : Share
  pub made :
      call v mutex_fops c (record { state = sh; f_pos = pos p })
      ≡ some (
        (flat_call (meant c) (record { bytes = sh.mem; at = p })).0,
        record {
          state = state;
          f_pos = pos (flat_call (meant c) (record { bytes = sh.mem; at = p })).1.at;
        },
      )
  pub bytes_eq : state.mem ≡ (flat_call (meant c) (record { bytes = sh.mem; at = p })).1.bytes
  pub inside : (flat_call (meant c) (record { bytes = sh.mem; at = p })).1.at ≤ mem_size
  pub full : length state.mem ≡ mem_size

module _ (v : Vfs) (law : IsVfs v) (sh : Share) (p : ℕ) (whole : length sh.mem ≡ mem_size)
    (in_file : p ≤ mem_size) where
  read_call : (n : ℕ) → n ≤ max_rw_count → Called v (read_bytes n) sh p
  unfolding call flat_call
  read_call n h = record {
    state = sh;
    made =
        ap answered (
          law.read_set Share mutex_fops (holding []) sh n (pos p) mutex_read h refl
          ∙ ap
              (λ (r : Reply).
                settled (pos p)
                  (returns (record { state = sh; ret = r.ret; loff = r.loff; out = r.out })))
              (read_lem (holding []) sh n p (omega arith) (omega arith) refl)
          ∙ settled-pos sh (pos p) (pos (p + k)) k (slice sh.mem p k))
        ∙ ap₂
            (λ j l.
              some (record { ret = pos j; out = l }, record { state = sh; f_pos = pos (p + j) }))
            (sym got) cut;
    bytes_eq = refl;
    inside = omega (arith, got);
    full = whole;
  }
    where
      k : ℕ
      k = min n (mem_size - p)

      got : length (take n (drop p sh.mem)) ≡ k
      got = length-take n (drop p sh.mem) ∙ ap (min n) (length-drop p sh.mem ∙ omega arith)

      cut : slice sh.mem p k ≡ take n (drop p sh.mem)
      cut =
          ap (λ j. take (min n j) (drop p sh.mem)) (omega (arith, length-drop p sh.mem))
          ∙ take-min n (drop p sh.mem)

  module _ (xs : List ℕ) where
    -- how many bytes `_write` takes, and which
    abbrev written_count : ℕ
    written_count = min (length xs) (mem_size - p)

    abbrev part : List ℕ
    part = take (length sh.mem - p) xs

    length-part : length part ≡ written_count
    length-part = length-take (length sh.mem - p) xs ∙ omega arith

    arriving-part : arriving (holding xs) sh.mem p 0 written_count ≡ part
    arriving-part =
        arriving-take xs sh.mem p 0 written_count (omega arith)
        ∙ ap (λ j. take j xs) {x = written_count} {y = min (length sh.mem - p) (length xs)}
            (omega arith)
        ∙ take-min (length sh.mem - p) xs

    blit-part :
        blit sh.mem p (arriving (holding xs) sh.mem p 0 written_count)
        ≡ take p sh.mem ++ part ++ drop (p + length part) sh.mem
    blit-part =
        ap (blit sh.mem p) arriving-part ∙ blit-split sh.mem p part (omega (arith, length-part))

  write_call : (xs : List ℕ) → length xs ≤ max_rw_count → Called v (write_bytes xs) sh p
  unfolding call flat_call
  write_call xs h = record {
    state = record {
      mem = take p sh.mem ++ part xs ++ drop (p + length (part xs)) sh.mem;
      writecount = (sh.writecount + 1) % 2 ^ 32;
    };
    made =
        ap answered (
          law.write_set Share mutex_fops (holding xs) sh (length xs) (pos p) mutex_write h refl
          ∙ ap
              (λ (r : Share × Reply).
                settled (pos p)
                  (returns (record { state = r.0; ret = r.1.ret; loff = r.1.loff; out = [] })))
              (write_lem (holding xs) sh (length xs) p (omega arith) (omega arith))
          ∙ settled-pos _ (pos p) (pos (p + written_count xs)) (written_count xs) [])
        ∙ ap₂
            (λ j l. some (
              record { ret = pos j; out = [] },
              record {
                state = record { mem = l; writecount = (sh.writecount + 1) % 2 ^ 32 };
                f_pos = pos (p + j);
              },
            ))
            (sym (length-part xs)) (blit-part xs);
    bytes_eq = refl;
    inside = omega (arith, length-part xs);
    full = ap length (sym (blit-part xs)) ∙ length-blit sh.mem p _ ∙ whole;
  }

  -- `_llseek` as a seek in the file.
  record Moved (t : Option ℤ) : Type 0 where
    moved :
        ◌≡◌ {A = Option (Answer × File Share)}
          (some (
            record { ret = (seek_spec p t).0; out = [] },
            record { state = sh; f_pos = (seek_spec p t).1 },
          ))
          (some (
            (sought (record { bytes = sh.mem; at = p }) t).0,
            record { state = sh; f_pos = pos (sought (record { bytes = sh.mem; at = p }) t).1.at },
          ))
    same : sh.mem ≡ (sought (record { bytes = sh.mem; at = p }) t).1.bytes
    stays_inside : (sought (record { bytes = sh.mem; at = p }) t).1.at ≤ mem_size

  seek_call : (t : Option ℤ) → Moved t
  seek_call none = record { moved = refl; same = refl; stays_inside = in_file }
  seek_call (some (negsuc t)) = record { moved = refl; same = refl; stays_inside = in_file }
  seek_call (some (pos t)) = elim (dec_le t mem_size) [
    | yes h ↦
        let there : leb t mem_size ≡ true = ground arith in
        let there' : leb t (length sh.mem) ≡ true = ground arith in
        record {
          moved = rw (there, there') refl;
          same = rw there' refl;
          stays_inside = rw there' h;
        }
    | no h ↦
        let gone : leb t mem_size ≡ false = ground arith in
        let gone' : leb t (length sh.mem) ≡ false = ground arith in
        record {
          moved = rw (gone, gone') refl;
          same = rw gone' refl;
          stays_inside = rw gone' in_file;
        }
  ]

  -- What the driver takes for the target is the place of the call that is meant.
  target-place :
      (offset : ℤ) (whence : Whence)
      → target p offset whence
        ≡ place (record { bytes = sh.mem; at = p }) (from_last offset whence) whence
  target-place offset Whence.seek_set = refl
  target-place offset Whence.seek_cur = refl
  target-place offset Whence.seek_end =
      ap some (from_end offset ∙ ap (λ n. pos n +ℤ (offset +ℤ negsuc 0)) (sym whole))
  target-place offset Whence.other = refl

  lseek_call : (offset : ℤ) (whence : Whence) → IsLoff offset → Called v (lseek offset whence) sh p
  unfolding call flat_call
  lseek_call offset whence h =
      let m =
        seek_call (place (record { bytes = sh.mem; at = p }) (from_last offset whence) whence) in
      record {
        state = sh;
        made =
            ap
              (λ (r : ℤ × ℤ).
                some (record { ret = r.0; out = [] }, record { state = sh; f_pos = r.1 }))
              (law.lseek_set Share mutex_fops sh (pos p) offset whence
                  (λ s q o w. MutexDev.llseek q o w) refl
                ∙ llseek_lem p offset whence in_file h
                ∙ ap (seek_spec p) (target-place offset whence))
            ∙ m.moved;
        bytes_eq = m.same;
        inside = m.stays_inside;
        full = whole;
      }

  pub any_call : (c : FileCall) → InRange c → Called v c sh p
  any_call (read_bytes n) h = read_call n h
  any_call (write_bytes xs) h = write_call xs h
  any_call (lseek offset whence) h = lseek_call offset whence h
