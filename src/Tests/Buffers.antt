-- ===== src/Tests/Buffers.antt =====
-- The buffer device and the blocking device at concrete inputs.
use linux_dev_note.Common.{ℕ, ◌≢◌, ◌≡◌, ◌++◌, refl, arith, false, List, [], ◌∷◌, some, update, true}
use linux_dev_note.Common.Int.{pos}
use linux_dev_note.UserSpace.{holding}
use linux_dev_note.MmapDev.Session.{copies}
use linux_dev_note.IoTest.{Io, Reply, read, write, move_out}
use linux_dev_note.IoTest
use linux_dev_note.IoTest.Calls
use linux_dev_note.IoTest.Race
use linux_dev_note.IoTest.Single.{alone_reads}
use linux_dev_note.IoTest.Append.{Holds}
use linux_dev_note.IoTest.Mixed
use linux_dev_note.IoTest.Inside.{misses, one_reader_inside}
use linux_dev_note.IoTest.Underrun.{two_readers_underrun}
use linux_dev_note.QueueDev
use linux_dev_note.QueueDev.Calls.{Pc, System, Reach, start, later, sleep, fresh}
use linux_dev_note.QueueDev.{attempt}
use linux_dev_note.QueueDev.Progress.{Run, behind_write, can_be_served}
use linux_dev_note.QueueDev.Race.{readers, AllServed, one_write_serves_all}
use linux_dev_note.QueueDev.Programs.{series, copies_of, series_lem}

abbrev two : List ℕ
two = 1 ∷ 2 ∷ []

abbrev three : List ℕ
three = 7 ∷ 8 ∷ 9 ∷ []

-- The device with `three` in it, and nothing read.
abbrev full : Io
full = record { postion = 0; byte = three ++ copies 97 0; buff_len = 3; buff_pos = 3 }

full-Holds : Holds three full
full-Holds = record { full = refl; front = refl; len = refl; end = refl; content = refl }

abbrev write_two : Calls.Call
write_two = record { buf = holding two; size = 2 }

-- The reader is behind its copy when the writer has made its test, and then takes its bytes off.
one_reader_inside_example : misses (Mixed.WriterPc.storing 0) (record full { buff_len = 0 }) ≡ false
one_reader_inside_example =
    one_reader_inside write_two (IoTest.Race.readers (holding []) 3) full
      (record {
        dev = record full { postion = 3; buff_len = 0 };
        writer = Mixed.WriterPc.storing 0;
        readers = _;
      })
      (omega arith) (omega arith) (omega arith)
      (Mixed.further
        (Mixed.further
          (Mixed.further
            (Mixed.further
              (Mixed.further Mixed.here
                (Mixed.reader_moves _ (Calls.choose 0 3 (omega arith) refl refl)))
              (Mixed.reader_moves _ (Calls.copy 0 3 (omega arith) refl (omega arith) refl)))
            (Mixed.writer_moves _ _ _ refl Mixed.start))
          (Mixed.writer_moves _ _ _ refl (Mixed.enter 0 (omega arith))))
        (Mixed.reader_moves _ (Calls.finish 0 3 three (omega arith) refl)))

two_readers_underrun_example :
    (s : Mixed.System) × Mixed.Run 2 write_two
      (IoTest.Race.readers (holding []) 3)
      (Mixed.fresh full)
      s
    × (s.writer ≡ Mixed.WriterPc.storing 0)
    × (s.dev.buff_len ≡ 4294967293)
    × (misses s.writer s.dev ≡ true)
two_readers_underrun_example =
    two_readers_underrun write_two (holding []) full three full-Holds (omega arith) (omega arith)
      refl (omega arith) (omega arith)

alone_reads_example :
    (w : Calls.System) × Calls.Run 2 (IoTest.Race.readers (holding []) 2) (IoTest.Race.fresh full) w
    × (w.pc 1 ≡ Calls.returned (pos 2) (7 ∷ 8 ∷ []))
    × (w.dev ≡ record full { postion = 2; buff_len = 1 })
    × ((u : ℕ) → u ≢ 1 → w.pc u ≡ Calls.testing)
alone_reads_example =
    alone_reads 2 (IoTest.Race.readers (holding []) 2) 1 (IoTest.Race.fresh full) (omega arith) refl
      (omega arith) (omega arith) (omega arith) refl

abbrev empty : QueueDev.Dev
empty = record { byte = copies 100 4; buff_len = 0; havedata = false }

one_write_serves_all_example :
    (s : System) × Reach 5 (readers (holding []) 3) empty s
    × (s.writes ≡ 1)
    × (s.taken ≡ 5)
    × AllServed three 5 s
one_write_serves_all_example = one_write_serves_all (holding []) empty three 5 (omega arith) refl

-- The second of two readers has gone to sleep.
abbrev one_asleep : System
one_asleep = record (fresh empty) { pc = update (fresh empty).pc 1 Pc.asleep }

can_be_served_example :
    (r : QueueDev.Reply) × (w : System) × (QueueDev.write (holding three) empty 3 ≡ some r)
    × Run 2 (readers (holding []) 3) 1 (behind_write 2 (readers (holding []) 3) one_asleep r.dev) w
    × (w.pc 1 ≡ Pc.returned (pos 3) three)
unfolding attempt
can_be_served_example =
    can_be_served 2 (readers (holding []) 3) empty one_asleep three 1
      (later start (sleep 1 (omega arith) refl refl)) (omega arith) refl (omega arith) refl refl

series_lem_example : series (holding []) 30 empty ≡ copies_of 30
series_lem_example = series_lem (holding []) 30 empty (omega arith) refl
