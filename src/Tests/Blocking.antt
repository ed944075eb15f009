-- ===== src/Tests/Blocking.antt =====
-- The blocking device, its writers cut inside their loops, at concrete inputs.
use linux_dev_note.Common.{ℕ, ◌≢◌, ◌≡◌, refl, arith, false, List, [], ◌∷◌, update}
use linux_dev_note.Common.Int.{pos}
use linux_dev_note.UserSpace.{holding}
use linux_dev_note.MmapDev.Session.{copies}
use linux_dev_note.QueueDev.{Dev}
use linux_dev_note.QueueDev.Transfer.{loaded}
use linux_dev_note.QueueDev.Bytes.{
  Writer, storing, returned, starting, testing, System, start, enter, writer_moves, Run, here,
  further, fresh,
}
use linux_dev_note.QueueDev.Bytes.Bounds.{overruns, odd_result, one_writer_inside}
use linux_dev_note.QueueDev.Bytes.Rounds.{alone_stores}
use linux_dev_note.QueueDev.Bytes.Rivals.{writers}
use linux_dev_note.QueueDev.Bytes.Reset.{readers}

abbrev three : List ℕ
three = 7 ∷ 8 ∷ 9 ∷ []

abbrev empty : Dev
empty = record { byte = copies 100 4; buff_len = 0; havedata = false }

-- Behind the writer's first test.
abbrev begun : System
begun = record {
  dev = empty;
  writer = update (update (fresh empty).writer 0 (Writer.at_test 0)) 0 (storing 0);
  reader = λ t. testing;
}

begun-Run : Run (writers three) (readers (holding []) 3) 1 (fresh empty) begun
begun-Run =
    further (further here (writer_moves 0 starting _ _ (omega arith) refl start))
      (writer_moves 0 (Writer.at_test 0) _ _ (omega arith) refl (enter 0 (omega arith)))

one_writer_inside_example :
    (overruns (begun.writer 0) begun.dev ≡ false) × (odd_result 3 (begun.writer 0) ≡ false)
one_writer_inside_example =
    one_writer_inside (writers three) (readers (holding []) 3) empty begun (omega arith) begun-Run

alone_stores_example :
    (w : System) × Run (writers three) (readers (holding []) 3) 2 (fresh empty) w
    × (w.writer 1 ≡ returned (pos 3))
    × (w.dev ≡ loaded empty three)
    × ((u : ℕ) → 1 ≢ u → w.writer u ≡ starting)
    × (w.reader ≡ λ t. testing)
alone_stores_example =
    alone_stores (writers three) (readers (holding []) 3) 2 1 (fresh empty) three (omega arith) refl
      refl refl (omega arith)
