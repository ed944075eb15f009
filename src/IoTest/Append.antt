-- ===== src/IoTest/Append.antt =====
-- Writes to the buffer device of 03-fileOperate/fileOperate/RWTest/fileOperate_drv.c against a
-- list of the bytes it holds.
use linux_dev_note.Common.{
  ℕ, ◌+◌, ◌≤◌, ◌<◌, ◌≡◌, refl, ap, ap₂, ◌∙◌, List, [], ◌++◌, none, some, arith, length,
  length-append, length-take,
}
use linux_dev_note.Common.Int.{pos}
use linux_dev_note.Common.Bytes.{
  slice, blit, slice-append, slice-blit, slice-blit_before, length-blit,
}
use linux_dev_note.UserSpace.{UserBuffer, holding}
use linux_dev_note.CopyLoop.{store_loop_all, store_loop_overflow, store_loop_short}
use linux_dev_note.IoTest.{Io, write}
use linux_dev_note.IoTest.Cat.{drain, drain_lem, reset}

-- The size of `byte`.
abbrev pub array_size : ℕ
array_size = 100

-- `xs` has been written and nothing of it read.
pub record Holds (xs : List ℕ) (s : Io) : Type 0 where
  pub full : length s.byte ≡ array_size
  pub front : s.postion ≡ 0
  pub len : s.buff_len ≡ length xs
  pub end : s.buff_pos ≡ length xs
  pub content : slice s.byte 0 (length xs) ≡ xs

-- the state after a write of `ys` that is stored in full
abbrev pub written : Io → List ℕ → Io
written s ys = record {
  postion = s.postion;
  byte = blit s.byte s.buff_pos ys;
  buff_len = s.buff_pos + length ys;
  buff_pos = s.buff_pos + length ys;
}

-- What fits into the array behind `buff_pos` is stored there in full, and the result is its length.
pub write_stores :
    (s : Io) (ys : List ℕ)
    → s.buff_pos + length ys ≤ length s.byte
    → write (holding ys) s (length ys)
      ≡ some (record { io = written s ys; ret = pos (length ys); out = [] })
unfolding write
write_stores s ys h = rw (write, store_loop_all ys 0 (length ys) s.byte s.buff_pos (omega arith) h)

-- A head of the array that is written right behind itself.
slice-blit_behind :
    (byte : List ℕ) (xs ys : List ℕ)
    → length xs + length ys ≤ length byte
    → slice byte 0 (length xs) ≡ xs
    → slice (blit byte (length xs) ys) 0 (length (xs ++ ys)) ≡ xs ++ ys
slice-blit_behind byte xs ys h e =
    ap (slice copied 0) (length-append xs ys)
    ∙ slice-append copied 0 (length xs) (length ys)
    ∙ ap₂ ◌++◌ (slice-blit_before byte 0 (length xs) (length xs) ys (omega arith) ∙ e)
        (ap (λ q. slice copied q (length ys)) (omega arith) ∙ slice-blit byte (length xs) ys h)
  where
    copied : List ℕ
    copied = blit byte (length xs) ys

-- While nothing is read, a write that fits into the array appends: it returns its length, and the
-- device then holds what it held and after that the bytes written.
pub write-Holds :
    (xs ys : List ℕ) (s : Io)
    → Holds xs s
    → length xs + length ys ≤ array_size
    → (s' : Io) × (write (holding ys) s (length ys)
        ≡ some (record { io = s'; ret = pos (length ys); out = [] }))
      × Holds (xs ++ ys) s'
write-Holds xs ys s h fit = (
  written s ys,
  write_stores s ys (omega arith),
  record {
    full = length-blit s.byte s.buff_pos ys ∙ h.full;
    front = h.front;
    len = omega (arith, length-append xs ys);
    end = omega (arith, length-append xs ys);
    content =
        ap (λ k. slice (blit s.byte k ys) 0 (length (xs ++ ys))) h.end
        ∙ slice-blit_behind s.byte xs ys (omega arith) h.content;
  },
)

Holds-fits : (xs : List ℕ) (s : Io) → Holds xs s → length xs ≤ length s.byte
Holds-fits xs s h = omega (arith, ap length h.content, length-take (length xs) s.byte)

-- Reads of any size above 0, into a buffer that never faults and with more fuel than the device
-- holds bytes, end, give back exactly what it holds, and leave it empty.
pub drain-Holds :
    (fuel : ℕ) (buf : UserBuffer) (size : ℕ) (xs : List ℕ) (s : Io)
    → Holds xs s
    → ((n : ℕ) → buf.uncopied n ≡ 0)
    → 0 < size
    → length xs < fuel
    → (s' : Io) × (drain fuel buf size s ≡ some (xs, s')) × Holds [] s'
drain-Holds fuel buf size xs s h ok some' f = (
  reset s.byte,
  drain_lem fuel buf size s ok some' (omega (arith, Holds-fits xs s h)) (omega arith) (omega arith)
      ∙ ap (λ l. some (l, reset s.byte)) (ap₂ (slice s.byte) h.front h.len ∙ h.content),
  record { full = h.full; front = refl; len = refl; end = refl; content = refl },
)

-- From a position inside the array or at its end, a write of more bytes than there is room for
-- stores behind the end: no test stops it.
pub write_overflow :
    (s : Io) (ys : List ℕ)
    → s.buff_pos ≤ length s.byte
    → length s.byte < s.buff_pos + length ys
    → write (holding ys) s (length ys) ≡ none
unfolding write
write_overflow s ys le over =
    rw (write, store_loop_overflow ys 0 (length ys) s.byte s.buff_pos (omega arith) le over)

-- Where the user's buffer can be read for fewer bytes than the write names, and those fit into the
-- array with room left, only those are stored, and the result is the count of the write all the
-- same.
write_short :
    (s : Io) (ys : List ℕ) (size : ℕ)
    → length ys < size
    → s.buff_pos + length ys < length s.byte
    → write (holding ys) s size ≡ some (record { io = written s ys; ret = pos size; out = [] })
unfolding write
write_short s ys size h fit =
    rw
      (
        write,
        store_loop_short ys 0 size s.byte s.buff_pos (omega arith) (omega arith) (omega arith),
      )
      (ap
        (λ k. some (record {
          io = record {
            postion = s.postion;
            byte = blit s.byte s.buff_pos ys;
            buff_len = k;
            buff_pos = k;
          };
          ret = pos size;
          out = [];
        }))
        (omega arith))
