-- ===== src/MutexDev/Transfer.antt =====
-- What `_read` and `_write` of the shared-memory device transfer, against a byte array of
-- MEM_SIZE bytes.
use linux_dev_note.Common.{
  ℕ, zero, suc, ◌+◌, ◌-◌, ◌≤◌, ◌<◌, ◌^◌, ◌≡◌, refl, ap, ◌∙◌, false, true, List, [], ◌∷◌, arith,
  length, get_or, dec_lt, drop, get_elem?-eq-get_or, get_or-set_ne, ap₂, ◌%◌, set, min, leb, take,
  take-length, length-drop,
}
use linux_dev_note.Common.Int.{pos, minus, efault, add64-pos}
use linux_dev_note.Common.Bytes.{slice, blit, drop-cons, slice-blit}
use linux_dev_note.UserSpace.{UserBuffer, holding}
use linux_dev_note.MutexDev.{Share, mem_size, clamp_count, read, write, copy_in, fetched}

pub clamp_count-eq-min :
    (p cnt : ℕ) → p < mem_size → cnt < 2 ^ 32 → clamp_count p cnt ≡ min cnt (mem_size - p)
unfolding clamp_count
clamp_count-eq-min p cnt hp hc = ground arith

u64-pos : (p : ℕ) → p < 2 ^ 63 → p % 2 ^ 64 ≡ p
u64-pos p h = omega arith

-- At a position below 2^63, with a count below 2^32 and no fault, `_read` returns the bytes from
-- the position up to the count or the end of the memory, their number, and moves the position by it.
pub read_lem :
    (buff : UserBuffer) (sh : Share) (cnt p : ℕ)
    → cnt < 2 ^ 32
    → p < 2 ^ 63
    → buff.uncopied (min cnt (mem_size - p)) ≡ 0
    → let k = min cnt (mem_size - p) in
      read buff sh cnt (pos p) ≡ record { ret = pos k; loff = pos (p + k); out = slice sh.mem p k }
unfolding read
read_lem buff sh cnt p hc hp ok = elim (dec_lt p mem_size) [
  | yes h ↦
      ground
        (arith, clamp_count-eq-min p cnt h hc, u64-pos p, ok, add64-pos p (min cnt (mem_size - p)))
  | no h ↦ let z : min cnt (mem_size - p) ≡ 0 = omega arith in rw z (ground (arith, u64-pos p))
]

-- A fault of copy_to_user at a position inside the memory: -EFAULT, and the position stays.
read_fault :
    (buff : UserBuffer) (sh : Share) (cnt p : ℕ)
    → cnt < 2 ^ 32
    → p < mem_size
    → 0 < buff.uncopied (min cnt (mem_size - p))
    → ((read buff sh cnt (pos p)).ret ≡ minus efault) × ((read buff sh cnt (pos p)).loff ≡ pos p)
unfolding read
read_fault buff sh cnt p hc hp bad = ground (arith, clamp_count-eq-min p cnt hp hc, u64-pos p, bad)

-- the bytes that the loop of `_write` stores at `p + i` and on
pub arriving : UserBuffer → List ℕ → ℕ → ℕ → ℕ → List ℕ
arriving buff mem p i zero = []
arriving buff mem p i (suc n) =
    fetched buff i (get_or mem (p + i) 0) ∷ arriving buff mem p (suc i) n

-- A byte that is stored before the loop's place does not change what the rest of it stores.
arriving-set :
    (buff : UserBuffer) (mem : List ℕ) (p i n q v : ℕ)
    → q < p + i
    → arriving buff (set mem q v) p i n ≡ arriving buff mem p i n
unfolding arriving
arriving-set buff mem p i zero q v h = refl
arriving-set buff mem p i (suc n) q v h =
    ap₂ ◌∷◌ (ap (fetched buff i) (get_or-set_ne mem v 0 (λ e. omega arith)))
      (arriving-set buff mem p (suc i) n q v (omega arith))

pub copy_in-eq-blit :
    (buff : UserBuffer) (p i n : ℕ) (mem : List ℕ)
    → copy_in buff p i n mem ≡ blit mem (p + i) (arriving buff mem p i n)
unfolding copy_in arriving blit
copy_in-eq-blit buff p i zero mem = refl
copy_in-eq-blit buff p i (suc n) mem =
    copy_in-eq-blit buff p (suc i) n stored
    ∙ ap₂ (λ q l. blit stored q l) (omega arith)
        (arriving-set buff mem p (suc i) n (p + i) byte (omega arith))
  where
    byte : ℕ
    byte = fetched buff i (get_or mem (p + i) 0)

    stored : List ℕ
    stored = set mem (p + i) byte

-- At a position below 2^63 and with a count below 2^32, `_write` stores what arrives from the user
-- from the position up to the count or the end of the memory, whether a copy faults or not; the
-- result is the number of those bytes, the position moves by it, and the calls are counted mod 2^32.
pub write_lem :
    (buff : UserBuffer) (sh : Share) (cnt p : ℕ)
    → cnt < 2 ^ 32
    → p < 2 ^ 63
    → let k = min cnt (mem_size - p) in
      write buff sh cnt (pos p) ≡ (
        record {
          mem = blit sh.mem p (arriving buff sh.mem p 0 k);
          writecount = (sh.writecount + 1) % 2 ^ 32;
        },
        record { ret = pos k; loff = pos (p + k); out = [] },
      )
unfolding write arriving blit
write_lem buff sh cnt p hc hp = elim (dec_lt p mem_size) [
  | yes h ↦
      let inside : leb mem_size p ≡ false = ground arith in
      rw (
        u64-pos p hp,
        inside,
        clamp_count-eq-min p cnt h hc,
        add64-pos p (min cnt (mem_size - p)) (omega arith),
        stored,
      )
  | no h ↦
      let z : min cnt (mem_size - p) ≡ 0 = omega arith in
      let outside : leb mem_size p ≡ true = ground arith in
      let stays : p + 0 ≡ p = omega arith in rw (z, u64-pos p hp, outside, stays)
]
  where
    stored :
        copy_in buff p 0 (min cnt (mem_size - p)) sh.mem
        ≡ blit sh.mem p (arriving buff sh.mem p 0 (min cnt (mem_size - p)))
    stored =
        copy_in-eq-blit buff p 0 (min cnt (mem_size - p)) sh.mem
        ∙ ap (λ q. blit sh.mem q (arriving buff sh.mem p 0 (min cnt (mem_size - p)))) (omega arith)

pub length-arriving :
    (buff : UserBuffer) (mem : List ℕ) (p i n : ℕ) → length (arriving buff mem p i n) ≡ n
unfolding arriving
length-arriving buff mem p i zero = refl
length-arriving buff mem p i (suc n) = ap suc (length-arriving buff mem p (suc i) n)

-- A write of what a buffer holds, or of a part of it.
pub arriving-take :
    (xs mem : List ℕ) (p i n : ℕ)
    → i + n ≤ length xs
    → arriving (holding xs) mem p i n ≡ take n (drop i xs)
unfolding arriving fetched
arriving-take xs mem p i zero h = refl
arriving-take xs mem p i (suc n) h =
    rw (drop-cons xs i 0 (omega arith))
      (ap₂ ◌∷◌ byte (arriving-take xs mem p (suc i) n (omega arith)))
  where
    byte : fetched (holding xs) i (get_or mem (p + i) 0) ≡ get_or xs i 0
    byte = rw (get_elem?-eq-get_or xs i 0 (omega arith), fetched)

pub arriving-holding :
    (xs mem : List ℕ) (p i n : ℕ) → i + n ≡ length xs → arriving (holding xs) mem p i n ≡ drop i xs
arriving-holding xs mem p i n h =
    arriving-take xs mem p i n (omega arith)
    ∙ take-length (drop i xs) n (omega (arith, length-drop i xs))

-- In a memory of MEM_SIZE bytes, what is written inside it is read back from the same position, in
-- full, where the copy to the user does not fault.
read-write :
    (buff : UserBuffer) (sh : Share) (xs : List ℕ) (p : ℕ)
    → length sh.mem ≡ mem_size
    → p + length xs ≤ mem_size
    → buff.uncopied (length xs) ≡ 0
    → read buff (write (holding xs) sh (length xs) (pos p)).0 (length xs) (pos p)
      ≡ record { ret = pos (length xs); loff = pos (p + length xs); out = xs }
read-write buff sh xs p full fits ok =
    rw (write_lem (holding xs) sh (length xs) p (omega arith) (omega arith)) (
      rw (read_lem buff _ (length xs) p (omega arith) (omega arith) (rw whole ok)) (
        rw (
          whole,
          arriving-holding xs sh.mem p 0 (length xs) (omega arith),
          slice-blit sh.mem p xs (omega arith),
        )))
  where
    whole : min (length xs) (mem_size - p) ≡ length xs
    whole = omega arith
