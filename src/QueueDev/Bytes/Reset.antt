-- ===== src/QueueDev/Bytes/Reset.antt =====
-- A writer of QueueDev/Bytes.antt and a reader that comes to an end before the writer does: it sets
-- `buff_len`, the index of the writer's loop and its result, back to 0.
use linux_dev_note.Common.{
  ℕ, ◌-◌, ◌≤◌, ◌<◌, ◌≡◌, refl, ap, sym, subst, ◌∙◌, true, false, List, some, arith, length,
  length-set, set, update,
}
use linux_dev_note.Common.Int.{pos}
use linux_dev_note.Common.Bytes.{slice, blit, slice-blit, length-blit}
use linux_dev_note.UserSpace.{UserBuffer}
use linux_dev_note.CopyLoop.{store_loop_all}
use linux_dev_note.QueueDev.{Dev, attempt}
use linux_dev_note.QueueDev.Bytes.{
  ReadCall, Writer, starting, at_test, storing, delayed, returned, Reader, testing, got, System,
  start, enter, wake_up, return, Reads, pass, clear, copy, finish, reader_moves, Run, further,
  fresh,
}
use linux_dev_note.QueueDev.Bytes.Rounds.{To, step_on, loop_run, rounds, one_round, first_turn}
use linux_dev_note.QueueDev.Bytes.Rivals.{writers, readable}

-- every reader with the same size, and waiting for data
abbrev pub readers : UserBuffer → ℕ → ℕ → ReadCall
readers buf size t = record { nonblock = false; buf = buf; size = size }

module _ (buf : UserBuffer) (xs : List ℕ) (from : System) where
  -- A run to where the only writer and the first reader stand so.
  record At (d : Dev) (q : Writer) (r : Reader) : Type 0 where
    last : System
    run : Run (writers xs) (readers buf (length xs)) 1 from last
    dev_eq : last.dev ≡ d
    at_writer : last.writer 0 ≡ q
    at_reader : last.reader 0 ≡ r

  read_on :
      {d d' : Dev} {q : Writer} {r w : Reader}
      → At d q r
      → Reads (writers xs) (readers buf (length xs)) 0 d r d' w
      → At d' q w
  read_on {d' = d'} {r = r} {w = w} p st = record {
    last = record p.last { dev = d'; reader = update p.last.reader 0 w };
    run = further p.run (
        reader_moves 0 r w d' p.at_reader
          (subst (λ x. Reads (writers xs) (readers buf (length xs)) 0 x r d' w) (sym p.dev_eq) st));
    dev_eq = refl;
    at_writer = p.at_writer;
    at_reader = refl;
  }

  -- The reader's turn, from behind its test to its end.
  take_all :
      (d : Dev) (q : Writer)
      → length xs ≤ length d.byte
      → buf.uncopied (length xs) ≡ 0
      → d.havedata ≡ true
      → At d q testing
      → At
          (record d { havedata = false; buff_len = 0 })
          q
          (got (pos d.buff_len) (slice d.byte 0 (length xs)))
  unfolding attempt
  take_all d q fits ok data_there p =
      read_on (read_on (read_on (read_on p (pass (rw data_there refl))) clear) (copy fits ok))
        (finish (slice d.byte 0 (length xs)))

only_lt : 0 < 1
only_lt = omega arith

module _ (buf : UserBuffer) (xs : List ℕ) (dev : Dev) (fits : length xs ≤ length dev.byte)
    (ok : buf.uncopied (length xs) ≡ 0) where
  abbrev WriterAt : System → Dev → Writer → Type 0
  WriterAt = To (writers xs) (readers buf (length xs)) 1 0 only_lt (fresh dev)

  -- From a writer's turn to the reader's, and back.
  reader_waits :
      {d : Dev} {q : Writer} → WriterAt (fresh dev) d q → At buf xs (fresh dev) d q testing
  reader_waits p = record {
    last = p.last;
    run = p.run;
    dev_eq = p.dev_eq;
    at_writer = p.own;
    at_reader = ap (λ f. f 0) p.readers;
  }

  writer_again :
      {d : Dev} {q : Writer} {r : Reader} (p : At buf xs (fresh dev) d q r) → WriterAt p.last d q
  writer_again p = record {
    last = p.last;
    run = p.run;
    dev_eq = p.dev_eq;
    own = p.at_writer;
    others = λ u ne. refl;
    readers = refl;
  }

  begins : WriterAt (fresh dev) (record dev { buff_len = 0 }) (at_test 0)
  begins =
      step_on (writers xs) (readers buf (length xs)) 1 0 only_lt (fresh dev) (fresh dev)
        (first_turn (writers xs) (readers buf (length xs)) 1 0 only_lt (fresh dev) starting refl)
        start

  -- The writer has stored its bytes and woken the readers.
  all_stored :
      WriterAt
        (fresh dev)
        (record { byte = blit dev.byte 0 xs; buff_len = length xs; havedata = true })
        delayed
  all_stored =
      step_on (writers xs) (readers buf (length xs)) 1 0 only_lt (fresh dev) (fresh dev)
        (loop_run (writers xs) (readers buf (length xs)) 1 0 only_lt (fresh dev) (fresh dev)
          (length xs) 0 0 dev.byte dev.havedata (blit dev.byte 0 xs, length xs) (omega arith)
          (store_loop_all xs 0 (length xs) dev.byte 0 (omega arith) (omega arith)
            ∙ ap (λ k. some (blit dev.byte 0 xs, k)) (omega arith))
          begins)
        wake_up

  served :
      At buf xs
        (fresh dev)
        (record { byte = blit dev.byte 0 xs; buff_len = 0; havedata = false })
        delayed
        (got (pos (length xs)) (slice (blit dev.byte 0 xs) 0 (length xs)))
  served =
      take_all buf xs (fresh dev)
        (record { byte = blit dev.byte 0 xs; buff_len = length xs; havedata = true }) delayed
        (omega (arith, length-blit dev.byte 0 xs)) ok refl (reader_waits all_stored)

  -- A write of bytes that the array has room for, and a read of as many, whose copy does not fault: there
  -- is a run in which the reader gets all the bytes while the writer waits behind its wake_up, and in
  -- which the writer then returns 0.
  write_returns_zero :
      (s : System) × Run (writers xs) (readers buf (length xs)) 1 (fresh dev) s
      × (s.reader 0 ≡ got (pos (length xs)) xs)
      × (s.writer 0 ≡ returned (pos 0))
  write_returns_zero =
      let p = served in
      let done =
        step_on (writers xs) (readers buf (length xs)) 1 0 only_lt (fresh dev) p.last
          (writer_again served) return in
      (
        done.last,
        done.run,
        ap (λ f. f 0) done.readers
            ∙ p.at_reader
            ∙ ap (got (pos (length xs))) (slice-blit dev.byte 0 xs (omega arith)),
        done.own,
      )

  module _ (more : 0 < length xs) (data_there : dev.havedata ≡ true) where
    one_stored :
        (v : ℕ) × WriterAt
          (fresh dev)
          (record { byte = set dev.byte 0 v; buff_len = 1; havedata = dev.havedata })
          (at_test 1)
    one_stored =
        let (v, e) = readable xs 0 more in
        (
          v,
          one_round (writers xs) (readers buf (length xs)) 1 0 only_lt (fresh dev) (fresh dev) 0 0 v
              dev.byte dev.havedata more (omega arith) e begins,
        )

    -- A device with data, a writer with one byte or more that the array has room for, and a read of as many,
    -- whose copy does not fault: there is a run to where the writer is about to take a byte from behind the
    -- end of the user's.
    user_overread :
        (s : System) × Run (writers xs) (readers buf (length xs)) 1 (fresh dev) s
        × (s.writer 0 ≡ storing (length xs))
    user_overread =
        let (v, p) = one_stored in
        let wide = length-set dev.byte 0 v in
        let q =
          take_all buf xs (fresh dev)
            (record { byte = set dev.byte 0 v; buff_len = 1; havedata = dev.havedata }) (at_test 1)
            (omega arith) ok data_there (reader_waits p) in
        let on =
          rounds (writers xs) (readers buf (length xs)) 1 0 only_lt (fresh dev) q.last
            (length xs - 1) 1 0 (length xs) (length xs - 1) (set dev.byte 0 v) false (omega arith)
            (omega arith) (omega arith) (omega arith) (λ j g. readable xs j g) (writer_again q) in
        let last =
          step_on (writers xs) (readers buf (length xs)) 1 0 only_lt (fresh dev) q.last on.reached
            (enter (length xs) (omega arith)) in
        (last.last, last.run, last.own)
