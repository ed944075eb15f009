-- ===== src/IoTest/Cat.antt =====
-- What a client reads from the buffer device: `cat` reads with one size until it gets 0.
use linux_dev_note.Common.{
  ℕ, zero, suc, ◌+◌, ◌-◌, ◌%◌, ◌^◌, ◌≤◌, ◌<◌, ◌≡◌, ap, sym, ◌∙◌, Bool, true, false, List, [], ◌++◌,
  Option, none, some, arith, ltb, min, length, dec_lt, append-nil,
}
use linux_dev_note.Common.Int.{ℤ, pos, negsuc}
use linux_dev_note.Common.Bytes.{slice, slice-append}
use linux_dev_note.UserSpace.{UserBuffer}
use linux_dev_note.IoTest.{Io, Reply, move_out, read}

-- Reads of `size` bytes until the result is 0 or an error: all the bytes, and the state after them.
unfoldable pub is_more : ℤ → Bool
is_more (pos n) = ltb 0 n
is_more (negsuc n) = false

unfoldable pub drain : ℕ → UserBuffer → ℕ → Io → Option (List ℕ × Io)
drain zero buf size s = none
drain (suc fuel) buf size s = elim (read buf s size) [
  | none ↦ none
  | some r ↦ elim (is_more r.ret) [
    | false ↦ some ([], r.io)
    | true ↦ elim (drain fuel buf size r.io) [
      | none ↦ none
      | some (rest, s') ↦ some (r.out ++ rest, s')
    ]
  ]
]

pub read_part :
    (buf : UserBuffer) (s : Io) (size : ℕ)
    → buf.uncopied (min size s.buff_len) ≡ 0
    → 0 < size
    → 0 < s.buff_len
    → s.postion + min size s.buff_len ≤ length s.byte
    → let k = min size s.buff_len in
      read buf s size
      ≡ some (record {
        io = record s { postion = (s.postion + size) % 2 ^ 32; buff_len = s.buff_len - k };
        ret = pos k;
        out = slice s.byte s.postion k;
      })
unfolding read move_out
read_part buf s size ok some' more fit = ground arith

-- Once everything has been read, a read returns 0 and sets both positions back.
pub read_end :
    (buf : UserBuffer) (s : Io) (size : ℕ)
    → 0 < size
    → s.buff_len ≡ 0
    → read buf s size
      ≡ some (record { io = record s { postion = 0; buff_pos = 0 }; ret = pos 0; out = [] })
unfolding read
read_end buf s size h e = ground arith

abbrev pub reset : List ℕ → Io
reset byte = record { postion = 0; byte = byte; buff_len = 0; buff_pos = 0 }

drain_end :
    (fuel : ℕ) (buf : UserBuffer) (size : ℕ) (s : Io)
    → 0 < fuel
    → 0 < size
    → s.buff_len ≡ 0
    → drain fuel buf size s ≡ some ([], reset s.byte)
unfolding drain is_more
drain_end zero buf size s f h e = absurd (omega arith)
drain_end (suc fuel) buf size s f h e =
    rw (drain, read_end buf s size h e)
      (ap (λ n. some ([], record { postion = 0; byte = s.byte; buff_len = n; buff_pos = 0 })) e)

-- One read that gets something, and then the rest.
drain_step :
    (fuel : ℕ) (buf : UserBuffer) (size : ℕ) (s : Io) (r : Reply) (rest : List ℕ) (s' : Io)
    → read buf s size ≡ some r
    → is_more r.ret ≡ true
    → drain fuel buf size r.io ≡ some (rest, s')
    → drain (suc fuel) buf size s ≡ some (r.out ++ rest, s')
unfolding drain
drain_step fuel buf size s r rest s' first more then' = rw (drain, first, more, then')

-- Into a buffer that never faults and with fuel above `buff_len`, reads with any size above 0 end,
-- get exactly the `buff_len` bytes from `postion` on, where those lie in an array of less than
-- 2^31 bytes, and leave both positions and the length at 0.
pub drain_lem :
    (fuel : ℕ) (buf : UserBuffer) (size : ℕ) (s : Io)
    → ((n : ℕ) → buf.uncopied n ≡ 0)
    → 0 < size
    → s.postion + s.buff_len ≤ length s.byte
    → length s.byte < 2 ^ 31
    → s.buff_len < fuel
    → drain fuel buf size s ≡ some (slice s.byte s.postion s.buff_len, reset s.byte)
unfolding is_more
drain_lem zero buf size s ok h fit small f = absurd (omega arith)
drain_lem (suc fuel) buf size s ok h fit small f = elim (dec_lt 0 s.buff_len) [
  | no e ↦
      let z : s.buff_len ≡ 0 = omega arith in
      drain_end (suc fuel) buf size s (omega arith) h z
      ∙ ap (λ n. some (slice s.byte s.postion n, reset s.byte)) (sym z)
  | yes more ↦ elim (dec_lt size s.buff_len) [
    | no last ↦
        let all : min size s.buff_len ≡ s.buff_len = omega arith in
        drain_step fuel buf size s _ [] (reset s.byte)
          (read_part buf s size (ok _) h more (omega arith)) (ground arith)
          (drain_end fuel buf size _ (omega arith) h (omega arith))
        ∙ ap (λ l. some (l, reset s.byte)) (append-nil _ ∙ ap (slice s.byte s.postion) all)
    | yes part ↦
        let k : min size s.buff_len ≡ size = omega arith in
        let on : (s.postion + size) % 2 ^ 32 ≡ s.postion + size = omega arith in
        drain_step fuel buf size s _ (slice s.byte (s.postion + size) (s.buff_len - size))
          (reset s.byte) (read_part buf s size (ok _) h more (omega arith)) (ground arith)
          (drain_lem fuel buf size _ ok h (omega arith) small (omega arith) ∙ rw (k, on))
        ∙ ap (λ l. some (l, reset s.byte))
            (ap
                (λ n.
                  slice s.byte s.postion n ++ slice s.byte (s.postion + size) (s.buff_len - size))
                k
              ∙ sym (slice-append s.byte s.postion size (s.buff_len - size))
              ∙ ap (slice s.byte s.postion) (omega arith))
  ]
]
