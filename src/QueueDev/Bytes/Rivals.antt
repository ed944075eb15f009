-- ===== src/QueueDev/Bytes/Rivals.antt =====
-- Two writers of QueueDev/Bytes.antt, which count their loops with the same `buff_len`.
use linux_dev_note.Common.{
  ℕ, suc, ◌-◌, ◌<◌, ◌≡◌, refl, ap₂, leb, set, ◌∙◌, true, List, some, arith, length,
  get_elem?-eq-get_or, get_or, length-set,
}
use linux_dev_note.UserSpace.{holding}
use linux_dev_note.QueueDev.{Dev}
use linux_dev_note.QueueDev.Bytes.{
  WriteCall, ReadCall, Writer, starting, at_test, storing, System, start, enter, Run, fresh,
}
use linux_dev_note.QueueDev.Bytes.Bounds.{overruns}
use linux_dev_note.QueueDev.Bytes.Rounds.{
  To, Stored, step_on, rounds, one_round, next_turn, first_turn,
}

-- every writer with the same bytes
abbrev pub writers : List ℕ → ℕ → WriteCall
writers xs t = record { buf = holding xs; size = length xs }

pub readable : (xs : List ℕ) (j : ℕ) → j < length xs → (v : ℕ) × ((holding xs).fetch j ≡ some v)
readable xs j h = (get_or xs j 0, get_elem?-eq-get_or xs j 0 h)

module _ (reads : ℕ → ReadCall) (xs : List ℕ) (dev : Dev) (whole : length xs ≡ length dev.byte)
    (more : 0 < length xs) where
  abbrev last : ℕ
  last = length xs - 1

  zero_lt : 0 < 2
  zero_lt = omega arith

  one_lt : 1 < 2
  one_lt = omega arith

  abbrev FirstAt : System → Dev → Writer → Type 0
  FirstAt = To (writers xs) reads 2 0 zero_lt (fresh dev)

  abbrev SecondAt : System → Dev → Writer → Type 0
  SecondAt = To (writers xs) reads 2 1 one_lt (fresh dev)

  -- The second writer has set `buff_len` to 0.
  waits : SecondAt (fresh dev) (record dev { buff_len = 0 }) (at_test 0)
  waits =
      step_on (writers xs) reads 2 1 one_lt (fresh dev) (fresh dev)
        (first_turn (writers xs) reads 2 1 one_lt (fresh dev) starting refl) start

  begins : FirstAt waits.last (record dev { buff_len = 0 }) (at_test 0)
  begins =
      step_on (writers xs) reads 2 0 zero_lt (fresh dev) waits.last
        (next_turn (writers xs) reads 2 1 0 one_lt zero_lt (fresh dev) (fresh dev) starting waits
          (λ e. omega (arith, e)) refl)
        start

  -- The first has stored all bytes but one.
  most :
      Stored
        (writers xs)
        reads
        2
        0
        zero_lt
        (fresh dev)
        waits.last
        last
        last
        dev.havedata
        (length dev.byte)
  most =
      rounds (writers xs) reads 2 0 zero_lt (fresh dev) waits.last last 0 0 last last dev.byte
        dev.havedata (omega arith) (omega arith) (omega arith) (omega arith)
        (λ j g. readable xs j (omega arith)) begins

  -- It is behind its test.
  behind_test :
      FirstAt waits.last
        (record { byte = most.bytes; buff_len = last; havedata = dev.havedata })
        (storing last)
  behind_test =
      step_on (writers xs) reads 2 0 zero_lt (fresh dev) waits.last most.reached
        (enter last (omega arith))

  -- The second makes a round.
  round :
      (v : ℕ) × SecondAt behind_test.last
        (record { byte = set most.bytes last v; buff_len = suc last; havedata = dev.havedata })
        (at_test 1)
  round =
      let (v, e) = readable xs 0 more in
      (
        v,
        one_round (writers xs) reads 2 1 one_lt (fresh dev) behind_test.last 0 last v most.bytes
            dev.havedata (omega arith) (omega (arith, most.as_long)) e
            (next_turn (writers xs) reads 2 0 1 zero_lt one_lt (fresh dev) waits.last (at_test 0)
              behind_test (λ e. omega (arith, e)) waits.own),
      )

  -- With two writers that each have as many bytes as the array, one or more, there is a run to where one of
  -- them is about to store behind the end of the array: the other has moved `buff_len` on behind its test.
  two_writers_overrun :
      (s : System) × Run (writers xs) reads 2 (fresh dev) s × (overruns (s.writer 0) s.dev ≡ true)
  two_writers_overrun =
      let (v, p) = round in
      let wide = length-set most.bytes last v in
      let full : leb (length (set most.bytes last v)) (suc last) ≡ true =
        ground (arith, wide, most.as_long) in
      (
        p.last,
        p.run,
        ap₂ overruns (p.others 0 (λ e. omega (arith, e)) ∙ behind_test.own) p.dev_eq ∙ full,
      )
