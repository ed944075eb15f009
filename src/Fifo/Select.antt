-- ===== src/Fifo/Select.antt =====
-- The reader that waits in select, against the one that reads each second.
use linux_dev_note.Common.{◌≡◌, refl, ap, List, [], ◌∷◌}
use linux_dev_note.Fifo.{
  ReadAnswer, Round, read_round, read_rounds, zeros, SelectAnswer, timeout, fails, ready,
  SelectRound, select_rounds,
}

-- the reads that select lets through, and what is printed for them
abbrev pub ready_answers : List SelectAnswer → List ReadAnswer
ready_answers [] = []
ready_answers (timeout ∷ l) = ready_answers l
ready_answers (fails ∷ l) = ready_answers l
ready_answers (ready a ∷ l) = a ∷ ready_answers l

abbrev pub read_prints : List SelectRound → List Round
read_prints [] = []
read_prints (SelectRound.says_timeout ∷ l) = read_prints l
read_prints (SelectRound.says_fail ∷ l) = read_prints l
read_prints (SelectRound.reads r ∷ l) = r ∷ read_prints l

-- Though it clears its array behind a read and not before, and not at a timeout or a failure, the
-- reader with select prints for the reads that select lets through what the plain reader prints for
-- them.
select_rounds-eq-read_rounds :
    (answers : List SelectAnswer)
    → read_prints (select_rounds zeros answers) ≡ read_rounds (ready_answers answers)
unfolding select_rounds read_round
select_rounds-eq-read_rounds [] = refl
select_rounds-eq-read_rounds (timeout ∷ l) = select_rounds-eq-read_rounds l
select_rounds-eq-read_rounds (fails ∷ l) = select_rounds-eq-read_rounds l
select_rounds-eq-read_rounds (ready a ∷ l) =
    ap (λ rs. read_round a ∷ rs) (select_rounds-eq-read_rounds l)
