-- ===== src/QueueDev/Programs.antt =====
-- The two programs of 04-queue_wait, write.c and read.c, run in turns on the blocking device.
use linux_dev_note.Common.{
  ℕ, zero, suc, ◌≤◌, ◌≡◌, refl, ap, false, List, [], ◌∷◌, Option, none, some, arith, length,
}
use linux_dev_note.Common.Bytes.{length-blit, slice-blit}
use linux_dev_note.UserSpace.{UserBuffer, holding}
use linux_dev_note.QueueDev.{Dev, consume, attempt, passes, fails, sleeps, write}
use linux_dev_note.QueueDev.Transfer.{loaded, write-loaded, consume_lem}

-- "1234", with its final 0
abbrev pub num_text : List ℕ
num_text = 49 ∷ 50 ∷ 51 ∷ 52 ∷ 0 ∷ []

-- `main` of write.c, where open gave a descriptor: the device after it.
unfoldable pub writer_main : Dev → Option Dev
writer_main s = elim (write (holding num_text) s 5) [ none ↦ none | some r ↦ some r.dev ]

-- What a run of read.c comes to.
pub data ReadRun : Type 0 where
  printed : List ℕ → Dev → ReadRun  -- the bytes that arrived in `num`, and the device after it
  waiting : ReadRun  -- in wait_event_interruptible
  undefined : ReadRun  -- an access behind the array

-- `main` of read.c: open without O_NONBLOCK, and a read of five bytes.
unfoldable pub reader_main : UserBuffer → Dev → ReadRun
reader_main num s = elim (attempt false s) [
  | passes ↦ elim (consume num s 5) [
    | none ↦ ReadRun.undefined
    | some r ↦ ReadRun.printed r.out r.dev
  ]
  | fails e ↦ ReadRun.printed [] s
  | sleeps ↦ ReadRun.waiting
]

-- `n` times write.c and then read.c: what was read. A reader that waits ends the series.
unfoldable pub series : UserBuffer → ℕ → Dev → List (List ℕ)
unfolding writer_main reader_main
series num zero s = []
series num (suc n) s = elim (writer_main s) [
  | none ↦ []
  | some s' ↦ elim (reader_main num s') [
    | ReadRun.printed out s'' ↦ out ∷ series num n s''
    | ReadRun.waiting ↦ []
    | ReadRun.undefined ↦ []
  ]
]

abbrev pub copies_of : ℕ → List (List ℕ)
copies_of zero = []
copies_of (suc n) = num_text ∷ copies_of n

abbrev after : Dev → Dev
after s = record { byte = (loaded s num_text).byte; buff_len = 0; havedata = false }

reader-writer :
    (num : UserBuffer) (s : Dev)
    → 5 ≤ length s.byte
    → num.uncopied 5 ≡ 0
    → reader_main num (loaded s num_text) ≡ ReadRun.printed num_text (after s)
unfolding reader_main
reader-writer num s h ok =
    rw (reader_main, (write-loaded s num_text false h).1, consume_lem num s num_text 5 h ok)
      (ap (λ l. ReadRun.printed l (after s)) (slice-blit s.byte 0 num_text h))

-- Into a device whose array has five bytes or more, and without fault, every run of read.c that
-- follows one of write.c prints what that one wrote, however many times the two run in turns, and
-- whatever the device held before.
pub series_lem :
    (num : UserBuffer) (n : ℕ) (s : Dev)
    → 5 ≤ length s.byte
    → num.uncopied 5 ≡ 0
    → series num n s ≡ copies_of n
unfolding series writer_main
series_lem num zero s h ok = refl
series_lem num (suc n) s h ok =
    rw (series, writer_main, (write-loaded s num_text false h).0, reader-writer num s h ok)
      (ap (λ l. num_text ∷ l)
        (series_lem num n (after s) (omega (arith, length-blit s.byte 0 num_text)) ok))
