-- ===== src/IoTest/Underrun.antt =====
-- One writer and two readers of IoTest/Mixed.antt: the index of the writer goes below 0.
use linux_dev_note.Common.{
  ℕ, ◌+◌, ◌-◌, ◌^◌, ◌≤◌, ◌<◌, ◌≡◌, refl, ap, ◌∙◌, List, true, arith, length,
}
use linux_dev_note.UserSpace.{UserBuffer}
use linux_dev_note.IoTest.{Io}
use linux_dev_note.IoTest.Append.{Holds, array_size}
use linux_dev_note.IoTest.Calls.{Call, copied, returned, moved_on, finish}
use linux_dev_note.IoTest.Calls as Calls
use linux_dev_note.IoTest.Race as Race
use linux_dev_note.IoTest.Mixed.{
  starting, at_test, storing, start, enter, System, writer_moves, reader_moves, Run, here, further,
  fresh,
}
use linux_dev_note.IoTest.Inside.{misses}

-- A run of the readers alone, before the writer begins.
readers_first :
    {n : ℕ} (w : Call) (call : ℕ → Call) {a b : Calls.System}
    → Calls.Run n call a b
    → Run n w call
        (record { dev = a.dev; writer = starting; readers = a.pc })
        (record { dev = b.dev; writer = starting; readers = b.pc })
readers_first w call Calls.here = here
readers_first w call (Calls.further r st) = further (readers_first w call r) (reader_moves _ st)

-- Where the device holds `xs`, which is not read yet, one byte or more and no more than the array has:
-- two readers that ask for as many bytes, into a buffer that does not fault, and a writer of one byte
-- or more, with `size+buff_pos` below 2^64, can run so that the writer is about to store with `buff_len`
-- at minus the length of `xs`, which is before the start of the array.
pub two_readers_underrun :
    (w : Call) (buf : UserBuffer) (dev : Io) (xs : List ℕ)
    → Holds xs dev
    → 0 < length xs
    → length xs ≤ array_size
    → buf.uncopied (length xs) ≡ 0
    → 0 < w.size
    → w.size + length xs < 2 ^ 64
    → (s : System) × Run 2 w (Race.readers buf (length xs)) (fresh dev) s
      × (s.writer ≡ storing 0)
      × (s.dev.buff_len ≡ 2 ^ 32 - length xs)
      × (misses s.writer s.dev ≡ true)
two_readers_underrun w buf dev xs holds some_of_it fits ok more wide =
    let k : ℕ = length xs in
    let call = Race.readers buf k in
    let p = Race.copies buf dev xs 2 holds fits ok 2 (omega arith) in
    let d = p.last.dev in
    let full : length d.byte ≡ array_size = ap (λ x. length x.byte) p.dev_eq ∙ holds.full in
    let len_eq : d.buff_pos ≡ k = ap (λ x. x.buff_pos) p.dev_eq ∙ holds.end in
    let d' : Io = record d { buff_len = d.buff_pos } in
    let begun =
      further
        (further (readers_first w call p.run) (writer_moves starting (at_test 0) d' refl start))
        (writer_moves (at_test 0) (storing 0) d' refl (enter 0 (ground arith))) in
    let once =
      further begun (reader_moves _ (finish 0 k xs (omega arith) (p.behind 0 (omega arith)))) in
    let twice =
      further once (reader_moves _ (finish 1 k xs (omega arith) (ground (arith, p.behind 1)))) in
    let below : (moved_on (moved_on d' k k) k k).buff_len ≡ 2 ^ 32 - k = omega arith in
    (_, twice, refl, below, ground arith)
