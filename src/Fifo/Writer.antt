-- ===== src/Fifo/Writer.antt =====
-- A run of fifo_write.c with an argument.
use linux_dev_note.Common.{
  ℕ, ◌<◌, ◌≡◌, refl, ap, true, false, List, [], ◌∷◌, ◌++◌, some, ltb, ◌==◌, length, if◌then◌else◌,
  arith, dec_lt,
}
use linux_dev_note.Common.Int.{eagain}
use linux_dev_note.Common.Bytes.{blit}
use linux_dev_note.Common.CString.{c_string, c_string-blit, IsText}
use linux_dev_note.Fifo.{
  buf_size, WriteAnswer, wrote, failed, WriterRun, overrun, says_later, says_nothing, says_written,
  writer_main, strcpy,
}

-- what is said to the answer of a write
abbrev pub reply : List ℕ → WriteAnswer → WriterRun
reply arg (wrote n) = says_written (some arg)
reply arg (failed e) = if e == eagain then says_later else says_nothing

reply-written :
    (write : List ℕ → WriteAnswer) (w_buf arg : List ℕ)
    → IsText arg
    → length arg < length w_buf
    → writer_main write w_buf (some arg) ≡ reply arg (write (blit w_buf 0 (arg ++ 0 ∷ [])))
unfolding writer_main strcpy
reply-written write w_buf arg t h =
    let test : ltb (length arg) (length w_buf) ≡ true = ground arith in
    rw (writer_main, test) (cases (write (blit w_buf 0 (arg ++ 0 ∷ []))))
  where
    cases :
        (a : WriteAnswer)
        → elim a [
          | wrote n ↦ says_written (c_string (blit w_buf 0 (arg ++ 0 ∷ [])))
          | failed e ↦ if e == eagain then says_later else says_nothing
        ]
          ≡ reply arg a
    cases (wrote n) = ap says_written (c_string-blit w_buf arg t h)
    cases (failed e) = refl

-- With an array of 100 bytes and an argument without 0: one of less than 100 bytes is written with its
-- final 0 and what stood behind it in the array, and the program prints exactly the argument where the
-- write succeeds, "try later" at EAGAIN, and nothing at any other error; a longer one is copied behind
-- the end of the array.
writer_main_lem :
    (write : List ℕ → WriteAnswer) (w_buf arg : List ℕ)
    → IsText arg
    → length w_buf ≡ buf_size
    → writer_main write w_buf (some arg) ≡ (
        if ltb (length arg) buf_size
        then reply arg (write (blit w_buf 0 (arg ++ 0 ∷ [])))
        else overrun)
unfolding writer_main strcpy
writer_main_lem write w_buf arg t e = elim (dec_lt (length arg) buf_size) [
  | yes h ↦
      let test : ltb (length arg) buf_size ≡ true = ground arith in
      rw test (reply-written write w_buf arg t (omega arith))
  | no h ↦
      let test : ltb (length arg) buf_size ≡ false = ground arith in
      let test' : ltb (length arg) (length w_buf) ≡ false = ground arith in
      rw (writer_main, test, test') refl
]
