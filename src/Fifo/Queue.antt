-- ===== src/Fifo/Queue.antt =====
-- Writers and a reader of one FIFO: what fifo_write.c puts in, and what fifo_Read.c prints.
use linux_dev_note.Common.{
  ℕ, zero, suc, ◌+◌, ◌*◌, ◌≤◌, ◌<◌, ◌≡◌, refl, ap, ap₂, sym, ◌∙◌, true, false, List, [], ◌∷◌, ◌++◌,
  Option, none, some, arith, length, take, drop, length-append, append-nil, append_assoc, ltb,
}
use linux_dev_note.Common.Bytes.{blit, length-blit}
use linux_dev_note.Common.CString.{c_string, c_string-blit, blit-front, IsText}
use linux_dev_note.Pipe.Layer.{PipeCalls, IsPipeCalls, pipe_buf}
use linux_dev_note.Fifo.{buf_size, WriteAnswer, ReadAnswer, strcpy, Round, read_round, zeros}

-- The arguments that fit into `w_buf` with their final 0.
abbrev pub Fits : List (List ℕ) → Type 0
Fits [] = Unit {0}
Fits (arg ∷ args) = (IsText arg × (length arg < buf_size)) × Fits args

module _ (c : PipeCalls) where
  open c use {Pipe, contents, push, pull}

  -- What the FIFO answers a writer, where a reader has it open: `e` is errno where there is no room.
  abbrev pub answer : ℕ → Pipe → List ℕ → WriteAnswer
  answer e p xs = elim (push p xs) [
    | none ↦ WriteAnswer.failed e
    | some p' ↦ WriteAnswer.wrote (length xs)
  ]

  -- the FIFO behind a run of fifo_write.c with an argument
  unfoldable pub written : List ℕ → Pipe → List ℕ → Option Pipe
  written w_buf p arg = elim (strcpy w_buf arg) [ none ↦ none | some xs ↦ push p xs ]

  -- runs of it one after another
  unfoldable pub writers : List ℕ → Pipe → List (List ℕ) → Option Pipe
  unfolding written
  writers w_buf p [] = some p
  writers w_buf p (arg ∷ args) = elim (written w_buf p arg) [
    | none ↦ none
    | some p' ↦ writers w_buf p' args
  ]

  -- `n` rounds of fifo_Read.c on a FIFO with bytes in it
  unfoldable pub readers : Pipe → ℕ → List Round
  readers p zero = []
  readers p (suc n) =
      read_round (ReadAnswer.bytes (pull p buf_size).0) ∷ readers (pull p buf_size).1 n

  abbrev pub said : List (List ℕ) → List Round
  said [] = []
  said (arg ∷ args) = record { no_data = false; printed = some arg } ∷ said args

-- what a run of fifo_write.c puts into the FIFO
abbrev pub chunk : List ℕ → List ℕ → List ℕ
chunk w_buf arg = blit w_buf 0 (arg ++ 0 ∷ [])

abbrev chunks : List ℕ → List (List ℕ) → List ℕ
chunks w_buf [] = []
chunks w_buf (arg ∷ args) = chunk w_buf arg ++ chunks w_buf args

take-append : (xs ys : List ℕ) (n : ℕ) → length xs ≡ n → take n (xs ++ ys) ≡ xs
take-append [] ys zero e = refl
take-append [] ys (suc n) e = absurd (omega arith)
take-append (x ∷ xs) ys zero e = absurd (omega arith)
take-append (x ∷ xs) ys (suc n) e = ap (λ l. x ∷ l) (take-append xs ys n (omega arith))

drop-append : (xs ys : List ℕ) (n : ℕ) → length xs ≡ n → drop n (xs ++ ys) ≡ ys
drop-append [] ys zero e = refl
drop-append [] ys (suc n) e = absurd (omega arith)
drop-append (x ∷ xs) ys zero e = absurd (omega arith)
drop-append (x ∷ xs) ys (suc n) e = drop-append xs ys n (omega arith)

module _ (w_buf : List ℕ) (whole : length w_buf ≡ buf_size) where
  length-chunk : (arg : List ℕ) → length (chunk w_buf arg) ≡ buf_size
  length-chunk arg = length-blit w_buf 0 (arg ++ 0 ∷ []) ∙ whole

  strcpy-chunk : (arg : List ℕ) → length arg < buf_size → strcpy w_buf arg ≡ some (chunk w_buf arg)
  unfolding strcpy
  strcpy-chunk arg h = let test : ltb (length arg) (length w_buf) ≡ true = ground arith in rw test

  read_round-chunk :
      (arg : List ℕ)
      → IsText arg
      → length arg < buf_size
      → read_round (ReadAnswer.bytes (chunk w_buf arg))
        ≡ record { no_data = false; printed = some arg }
  unfolding read_round
  read_round-chunk arg t h =
      ap (λ s. record { no_data = false; printed = c_string s })
        (blit-front zeros (chunk w_buf arg) (omega (arith, length-chunk arg))
          ∙ ap (λ n. chunk w_buf arg ++ drop n zeros) (length-chunk arg)
          ∙ append-nil _)
      ∙ ap (λ s. record { no_data = false; printed = s }) (c_string-blit w_buf arg t (omega arith))

  module _ (c : PipeCalls) (law : IsPipeCalls c) where
    writers-chunks :
        (args : List (List ℕ)) (p : c.Pipe)
        → Fits args
        → length (c.contents p) + buf_size * length args ≤ pipe_buf
        → (p' : c.Pipe) × (writers c w_buf p args ≡ some p')
          × (c.contents p' ≡ c.contents p ++ chunks w_buf args)
    unfolding writers
    writers-chunks [] p f h = (p, refl, sym (append-nil _))
    writers-chunks (arg ∷ args) p f h =
        let (p', pushed) = law.push_room p (chunk w_buf arg) (omega (arith, length-chunk arg)) in
        let more : c.contents p' ≡ c.contents p ++ chunk w_buf arg =
          law.push_whole p p' (chunk w_buf arg) pushed in
        let (last, run, all) = writers-chunks args p' f.1 (
          omega (
            arith,
            ap length more,
            length-append (c.contents p) (chunk w_buf arg),
            length-chunk arg,
          )) in
        (
          last,
          rw (writers, strcpy-chunk arg f.0.1, pushed) run,
          all
              ∙ ap (λ l. l ++ chunks w_buf args) more
              ∙ append_assoc (c.contents p) (chunk w_buf arg) (chunks w_buf args),
        )

    readers-chunks :
        (args : List (List ℕ)) (p : c.Pipe)
        → Fits args
        → c.contents p ≡ chunks w_buf args
        → readers c p (length args) ≡ said c args
    unfolding readers
    readers-chunks [] p f e = refl
    readers-chunks (arg ∷ args) p f e =
        ap₂ ◌∷◌
          (ap (λ xs. read_round (ReadAnswer.bytes xs))
              (law.pull_out p buf_size
                ∙ ap (take buf_size) e
                ∙ take-append (chunk w_buf arg) (chunks w_buf args) buf_size (length-chunk arg))
            ∙ read_round-chunk arg f.0.0 f.0.1)
          (readers-chunks args (c.pull p buf_size).1 f.1 (
            law.pull_rest p buf_size
            ∙ ap (drop buf_size) e
            ∙ drop-append (chunk w_buf arg) (chunks w_buf args) buf_size (length-chunk arg)))

    -- Where the FIFO keeps the laws of pipe(7), and whatever stands in the writers' array of 100
    -- bytes: runs of fifo_write.c one after another into an empty FIFO, each with an argument of
    -- less than 100 bytes, none of them 0, and no more runs than PIPE_BUF has room for, all write;
    -- then as many rounds of fifo_Read.c print exactly the arguments, in their order.
    pub readers-writers :
        (args : List (List ℕ)) (p : c.Pipe)
        → c.contents p ≡ []
        → Fits args
        → buf_size * length args ≤ pipe_buf
        → (p' : c.Pipe) × (writers c w_buf p args ≡ some p')
          × (readers c p' (length args) ≡ said c args)
    readers-writers args p e f h =
        let (p', run, all) = writers-chunks args p f (omega (arith, ap length e)) in
        (p', run, readers-chunks args p' f (all ∙ ap (λ l. l ++ chunks w_buf args) e))
