-- ===== src/CopyLoop.antt =====
-- The loop by which two drivers take a write, a byte at a time into the array `byte`
-- (03-fileOperate/fileOperate/RWTest/fileOperate_drv.c and 04-queue_wait/queue_wait_dev.c): the
-- index `buff_len` runs from the start, and the loop breaks at the first copy that fails.
use linux_dev_note.Common.{
  ℕ, zero, suc, ◌+◌, ◌-◌, ◌≤◌, ◌<◌, ◌≡◌, ap, ap₂, sym, ◌∙◌, true, false, List, Option, none, some,
  arith, length, get_or, set, drop, get_elem?-eq-get_or, drop-length, length-set, lt→ltb, dec_lt,
  get_elem?-eq-none, set-get_or_self, Bool-cases, Option-cases, inl, inr, ltb,
}
use linux_dev_note.Common.Bytes.{blit, drop-cons}
use linux_dev_note.UserSpace.{UserBuffer, holding}

-- From user offset `i` and index `k` on, with `n` rounds left: the array and the last `buff_len`.
-- `none` is a store behind the end of the array, which is undefined in C.
unfoldable pub store_loop : UserBuffer → ℕ → ℕ → List ℕ → ℕ → Option (List ℕ × ℕ)
store_loop buff i zero byte k = some (byte, k)
store_loop buff i (suc n) byte k = elim (ltb k (length byte)) [
  | false ↦ none
  | true ↦ elim (buff.fetch i) [
    | some v ↦ store_loop buff (suc i) n (set byte k v) (suc k)
    | none ↦ some (set byte k (buff.fault_fill (get_or byte k 0)), k)
  ]
]

fetch-holding : (xs : List ℕ) (i : ℕ) → i < length xs → (holding xs).fetch i ≡ some (get_or xs i 0)
fetch-holding xs i h = get_elem?-eq-get_or xs i 0 h

-- Everything that the user passes is stored, where it fits.
pub store_loop_all :
    (xs : List ℕ) (i n : ℕ) (byte : List ℕ) (k : ℕ)
    → i + n ≡ length xs
    → k + n ≤ length byte
    → store_loop (holding xs) i n byte k ≡ some (blit byte k (drop i xs), k + n)
unfolding store_loop blit
store_loop_all xs i zero byte k h fit =
    ap₂ (λ l j. some (blit byte k l, j)) (sym (drop-length xs i (omega arith))) (omega arith)
store_loop_all xs i (suc n) byte k h fit =
    let room : ltb k (length byte) ≡ true = ground arith in
    rw (store_loop, room, fetch-holding xs i (omega arith))
      (store_loop_all xs (suc i) n (set byte k (get_or xs i 0)) (suc k) (omega arith)
          (omega (arith, length-set byte k (get_or xs i 0)))
        ∙ ap₂ (λ l j. some (l, j)) (sym (ap (blit byte k) (drop-cons xs i 0 (omega arith))))
            (omega arith))

-- Where it does not fit, the loop goes on behind the end of the array.
pub store_loop_overflow :
    (xs : List ℕ) (i n : ℕ) (byte : List ℕ) (k : ℕ)
    → i + n ≤ length xs
    → k ≤ length byte
    → length byte < k + n
    → store_loop (holding xs) i n byte k ≡ none
unfolding store_loop
store_loop_overflow xs i zero byte k h le over = absurd (omega arith)
store_loop_overflow xs i (suc n) byte k h le over = elim (dec_lt k (length byte)) [
  | yes room ↦
      rw (store_loop, lt→ltb k (length byte) room, fetch-holding xs i (omega arith))
        (store_loop_overflow xs (suc i) n (set byte k (get_or xs i 0)) (suc k) (omega arith)
          (omega (arith, length-set byte k (get_or xs i 0)))
          (omega (arith, length-set byte k (get_or xs i 0))))
  | no full ↦ let over' : ltb k (length byte) ≡ false = ground arith in rw (store_loop, over')
]

-- A buffer that ends before the count: the loop stops there.
pub store_loop_short :
    (xs : List ℕ) (i n : ℕ) (byte : List ℕ) (k : ℕ)
    → i ≤ length xs
    → length xs < i + n
    → k + (length xs - i) < length byte
    → store_loop (holding xs) i n byte k ≡ some (blit byte k (drop i xs), k + (length xs - i))
unfolding store_loop blit
store_loop_short xs i zero byte k h short fit = absurd (omega arith)
store_loop_short xs i (suc n) byte k h short fit = elim (dec_lt i (length xs)) [
  | yes more ↦
      rw (store_loop, room, fetch-holding xs i more)
        (store_loop_short xs (suc i) n (set byte k (get_or xs i 0)) (suc k) more (omega arith)
            (omega (arith, length-set byte k (get_or xs i 0)))
          ∙ ap₂ (λ l j. some (l, j)) (sym (ap (blit byte k) (drop-cons xs i 0 more))) (omega arith))
  | no ended ↦
      rw
        (
          store_loop,
          room,
          get_elem?-eq-none xs i (omega arith),
          set-get_or_self byte k 0 (omega arith),
          drop-length xs i (omega arith),
        )
        (ap (λ j. some (byte, j)) (omega arith))
]
  where
    room : ltb k (length byte) ≡ true
    room = lt→ltb k (length byte) (omega arith)

-- The loop leaves the array as long as it was.
pub length-store_loop :
    (buf : UserBuffer) (i n : ℕ) (byte : List ℕ) (k : ℕ) (r : List ℕ × ℕ)
    → store_loop buf i n byte k ≡ some r
    → length r.0 ≡ length byte
unfolding store_loop
length-store_loop buf i zero byte k r e = ground arith
length-store_loop buf i (suc n) byte k r e = elim (Bool-cases (ltb k (length byte))) [
  | inl t ↦ elim (Option-cases (buf.fetch i)) [
    | inr (v, f) ↦
        let rest : store_loop buf (suc i) n (set byte k v) (suc k) ≡ some r =
          rw (store_loop, t, f) at e in
        length-store_loop buf (suc i) n (set byte k v) (suc k) r rest ∙ length-set byte k v
    | inl f ↦
        let stopped : some (set byte k (buf.fault_fill (get_or byte k 0)), k) ≡ some r =
          rw (store_loop, t, f) at e in
        ground (arith, length-set byte k (buf.fault_fill (get_or byte k 0)))
  ]
  | inr t ↦ let refused : none ≡ some r = rw (store_loop, t) at e in ground arith
]
