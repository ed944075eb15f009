-- ===== src/IoTest/Stale.antt =====
-- A write to the buffer device of 03-fileOperate/fileOperate/RWTest/fileOperate_drv.c behind a read
-- that has left something.
use linux_dev_note.Common.{
  ℕ, ◌+◌, ◌-◌, ◌%◌, ◌^◌, ◌≤◌, ◌<◌, ◌≡◌, ap, ap₂, sym, ◌∙◌, List, [], ◌++◌, some, arith, min, length,
  take, drop, drop-take, take-take,
}
use linux_dev_note.Common.Int.{pos}
use linux_dev_note.Common.Bytes.{
  slice, blit, slice-append, slice-blit, slice-blit_before, slice-blit_after, length-blit,
}
use linux_dev_note.UserSpace.{UserBuffer, holding}
use linux_dev_note.IoTest.{Io, Reply, read, write}
use linux_dev_note.IoTest.Cat.{drain, drain_lem, reset, read_part}
use linux_dev_note.IoTest.Append.{array_size, Holds, written, write_stores}

-- What lies behind the first `k` bytes of `xs`, in the array after the second write.
slice_behind :
    (byte xs ys : List ℕ) (k : ℕ)
    → k ≤ length xs
    → length xs + length ys + k ≤ length byte
    → slice byte 0 (length xs) ≡ xs
    → slice (blit byte (length xs) ys) k (length xs + length ys)
      ≡ (drop k xs ++ ys) ++ slice byte (length xs + length ys) k
slice_behind byte xs ys k h fit e =
    ap (slice copied k) split
    ∙ slice-append copied k (length xs - k + length ys) k
    ∙ ap₂ ◌++◌ (slice-append copied k (length xs - k) (length ys) ∙ ap₂ ◌++◌ rest new) (
        ap (λ q. slice copied q k) at
        ∙ slice-blit_after byte (length xs + length ys) k (length xs) ys (omega arith))
  where
    copied : List ℕ
    copied = blit byte (length xs) ys

    split : length xs + length ys ≡ length xs - k + length ys + k
    split = omega arith

    at : k + (length xs - k + length ys) ≡ length xs + length ys
    at = omega arith

    rest : slice copied k (length xs - k) ≡ drop k xs
    rest =
        slice-blit_before byte k (length xs - k) (length xs) ys (omega arith)
        ∙ sym (drop-take k (length xs) byte h)
        ∙ ap (drop k) e

    new : slice copied (k + (length xs - k)) (length ys) ≡ ys
    new =
        ap (λ q. slice copied q (length ys)) (omega arith)
        ∙ slice-blit byte (length xs) ys (omega arith)

-- A device holds `xs`, a read takes fewer bytes than that, and a write of `ys` that the array has
-- room for follows: reads to the end, with enough fuel and without fault, do not give the rest of
-- `xs` and then `ys`, but as many bytes more as the first read took, from behind what was written.
stale_after_partial_read :
    (fuel : ℕ) (buf : UserBuffer) (xs ys : List ℕ) (s : Io) (k : ℕ)
    → Holds xs s
    → ((n : ℕ) → buf.uncopied n ≡ 0)
    → 0 < k
    → k < length xs
    → length xs + length ys + k ≤ array_size
    → length xs + length ys < fuel
    → (r r' : Reply) × (s' : Io) × (read buf s k ≡ some r)
      × (r.out ≡ take k xs)
      × (write (holding ys) r.io (length ys) ≡ some r')
      × (drain fuel buf 1 r'.io
          ≡ some ((drop k xs ++ ys) ++ slice s.byte (length xs + length ys) k, s'))
stale_after_partial_read fuel buf xs ys s k h ok some' part fit f = (
  first,
  record { io = written first.io ys; ret = pos (length ys); out = [] },
  reset (written first.io ys).byte,
  read_part buf s k (ok _) some' (omega arith) (omega arith),
  ap₂ (slice s.byte) h.front (omega arith)
      ∙ sym (take-take k (length xs) s.byte (omega arith))
      ∙ ap (take k) h.content,
  write_stores first.io ys (omega arith),
  drain_lem fuel buf 1 (written first.io ys) ok (omega arith)
        (omega (arith, length-blit s.byte s.buff_pos ys))
        (omega (arith, length-blit s.byte s.buff_pos ys)) (omega arith)
      ∙ ap (λ l. some (l, reset (blit s.byte s.buff_pos ys))) left,
)
  where
    first : Reply
    first = record {
      io = record s {
        postion = (s.postion + k) % 2 ^ 32;
        buff_len = s.buff_len - min k s.buff_len;
      };
      ret = pos (min k s.buff_len);
      out = slice s.byte s.postion (min k s.buff_len);
    }

    left :
        slice (blit s.byte s.buff_pos ys) ((s.postion + k) % 2 ^ 32) (s.buff_pos + length ys)
        ≡ (drop k xs ++ ys) ++ slice s.byte (length xs + length ys) k
    left =
        ap₂ (slice (blit s.byte s.buff_pos ys)) (omega arith) (omega arith)
        ∙ ap (λ p. slice (blit s.byte p ys) k (length xs + length ys)) h.end
        ∙ slice_behind s.byte xs ys k (omega arith) (omega arith) h.content
