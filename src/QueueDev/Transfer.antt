-- ===== src/QueueDev/Transfer.antt =====
-- What passes through the blocking device from a write to the read that takes it.
use linux_dev_note.Common.{
  ℕ, ◌+◌, ◌≤◌, ◌<◌, ◌≡◌, refl, ap, ap₂, ◌∙◌, Bool, true, false, List, [], ◌++◌, none, some, arith,
  length,
}
use linux_dev_note.Common.Int.{pos}
use linux_dev_note.Common.Bytes.{
  slice, blit, length-blit, slice-blit, slice-append, slice-blit_after,
}
use linux_dev_note.UserSpace.{UserBuffer, holding}
use linux_dev_note.CopyLoop.{store_loop_all, store_loop_overflow}
use linux_dev_note.QueueDev.{Dev, Reply, consume, attempt, passes, write}

-- the device after a write of `xs`
abbrev pub loaded : Dev → List ℕ → Dev
loaded s xs = record { byte = blit s.byte 0 xs; buff_len = length xs; havedata = true }

-- A write that the array holds is stored from its start, whatever stood there unread, its length
-- is the result, and from then on a read passes its test.
pub write-loaded :
    (s : Dev) (xs : List ℕ) (nonblock : Bool)
    → length xs ≤ length s.byte
    → (write (holding xs) s (length xs)
        ≡ some (record { dev = loaded s xs; ret = pos (length xs); out = [] }))
      × (attempt nonblock (loaded s xs) ≡ passes)
unfolding write attempt
write-loaded s xs nonblock h = (
  rw (write, store_loop_all xs 0 (length xs) s.byte 0 (omega arith) (omega arith))
      (ap
        (λ k. some (record {
          dev = record { byte = blit s.byte 0 xs; buff_len = k; havedata = true };
          ret = pos k;
          out = [];
        }))
        (omega arith)),
  refl,
)

-- A write of more bytes than the array has goes behind its end: no test stops it.
write_too_long :
    (s : Dev) (xs : List ℕ) → length s.byte < length xs → write (holding xs) s (length xs) ≡ none
unfolding write
write_too_long s xs over =
    rw (
      write,
      store_loop_overflow xs 0 (length xs) s.byte 0 (omega arith) (omega arith) (omega arith),
    )

-- The read that takes a write of `xs`, with a size up to the array's and no fault: its result is
-- the length of `xs`, and the device is empty after it.
pub consume_lem :
    (buf : UserBuffer) (s : Dev) (xs : List ℕ) (size : ℕ)
    → size ≤ length s.byte
    → buf.uncopied size ≡ 0
    → consume buf (loaded s xs) size
      ≡ some (record {
        dev = record { byte = blit s.byte 0 xs; buff_len = 0; havedata = false };
        ret = pos (length xs);
        out = slice (blit s.byte 0 xs) 0 size;
      })
unfolding consume
consume_lem buf s xs size h ok = ground (arith, length-blit s.byte 0 xs)

-- A write that fits into the array and the read of the same size that takes it, without fault,
-- hand the bytes over; the read returns their number and leaves no data.
consume-write :
    (buf : UserBuffer) (s : Dev) (xs : List ℕ)
    → length xs ≤ length s.byte
    → buf.uncopied (length xs) ≡ 0
    → (r r' : Reply) × (write (holding xs) s (length xs) ≡ some r)
      × (consume buf r.dev (length xs) ≡ some r')
      × (r'.out ≡ xs)
      × (r'.ret ≡ pos (length xs))
      × (r'.dev.havedata ≡ false)
consume-write buf s xs h ok = (
  _,
  _,
  (write-loaded s xs true h).0,
  consume_lem buf s xs (length xs) h ok,
  slice-blit s.byte 0 xs (omega arith),
  refl,
  refl,
)

-- A read, inside the array and without fault, of more bytes than were written gets those and then
-- what stood in the array before; its result counts only the bytes written.
consume_stale :
    (buf : UserBuffer) (s : Dev) (xs : List ℕ) (n : ℕ)
    → length xs + n ≤ length s.byte
    → buf.uncopied (length xs + n) ≡ 0
    → (r : Reply) × (consume buf (loaded s xs) (length xs + n) ≡ some r)
      × (r.ret ≡ pos (length xs))
      × (r.out ≡ xs ++ slice s.byte (length xs) n)
consume_stale buf s xs n h ok = (
  _,
  consume_lem buf s xs (length xs + n) h ok,
  refl,
  slice-append (blit s.byte 0 xs) 0 (length xs) n
      ∙ ap₂ ◌++◌ (slice-blit s.byte 0 xs (omega arith)) (
          ap (λ q. slice (blit s.byte 0 xs) q n) (omega arith)
          ∙ slice-blit_after s.byte (length xs) n 0 xs (omega arith)),
)
