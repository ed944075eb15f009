-- ===== src/IoTest/Mixed.antt =====
-- A call of example_write of 03-fileOperate/fileOperate/RWTest/fileOperate_drv.c among readers, which
-- may call again and again. It is cut behind each part of its loop, which counts with the global
-- `buff_len`, and the readers as in IoTest/Calls.antt. `buff_len` and `buff_pos` are bit patterns.
use linux_dev_note.Common.{
  ℕ, suc, ◌+◌, ◌%◌, ◌^◌, ◌≤◌, ◌<◌, ◌≡◌, List, none, some, length, get_or, set, update,
}
use linux_dev_note.Common.Int.{ℤ, pos}
use linux_dev_note.IoTest.{Io}
use linux_dev_note.IoTest.Calls.{Call, Pc, testing, returned, extended}
use linux_dev_note.IoTest.Calls as Calls

-- Where the writer stands; `i` counts how often `buf` has been moved on.
pub data WriterPc : Type 0 where
  starting : WriterPc  -- before `buff_len = buff_pos`
  at_test : (i : ℕ) → WriterPc
  storing : (i : ℕ) → WriterPc  -- before copy_from_user
  counting : (i : ℕ) → WriterPc  -- before `++buff_len`
  behind_loop : WriterPc  -- before `buff_pos=buff_len`
  written : (r : ℤ) → WriterPc

-- `size+buff_pos`, a `size_t`
abbrev pub loop_end : Io → ℕ → ℕ
loop_end d size = (size + extended d.buff_pos) % 2 ^ 64

-- A step of the writer: the globals and where it stands then. A store outside `byte` is undefined, and no
-- step.
pub data WriterStep (w : Call) (d : Io) : WriterPc → Io → WriterPc → Type 0 where
  start : WriterStep w d starting (record d { buff_len = d.buff_pos }) (at_test 0)
  enter :
      (i : ℕ) → extended d.buff_len < loop_end d w.size → WriterStep w d (at_test i) d (storing i)
  leave :
      (i : ℕ) → loop_end d w.size ≤ extended d.buff_len → WriterStep w d (at_test i) d behind_loop
  store :
      (i v : ℕ)
      → d.buff_len < length d.byte
      → w.buf.fetch i ≡ some v
      → WriterStep w d (storing i) (record d { byte = set d.byte d.buff_len v }) (counting (suc i))
  fault :
      (i : ℕ)
      → d.buff_len < length d.byte
      → w.buf.fetch i ≡ none
      → WriterStep w d
          (storing i)
          (record d {
            byte = set d.byte d.buff_len (w.buf.fault_fill (get_or d.byte d.buff_len 0));
          })
          behind_loop
  count :
      (i : ℕ)
      → WriterStep w d (counting i) (record d { buff_len = (d.buff_len + 1) % 2 ^ 32 }) (at_test i)
  finish : WriterStep w d behind_loop (record d { buff_pos = d.buff_len }) (written (pos w.size))

pub record System : Type 0 where
  pub dev : Io
  pub writer : WriterPc
  pub readers : ℕ → Pc

-- One writer and `n` readers.
pub data Step (n : ℕ) (w : Call) (call : ℕ → Call) (s : System) : System → Type 0 where
  writer_moves :
      (q q' : WriterPc) (d : Io)
      → s.writer ≡ q
      → WriterStep w s.dev q d q'
      → Step n w call s (record s { dev = d; writer = q' })
  reader_moves :
      (u : Calls.System)
      → Calls.Step n call (record { dev = s.dev; pc = s.readers }) u
      → Step n w call s (record { dev = u.dev; writer = s.writer; readers = u.pc })
  again :
      (t : ℕ) (r : ℤ) (out : List ℕ)
      → t < n
      → s.readers t ≡ returned r out
      → Step n w call s (record s { readers = update s.readers t testing })

pub data Run (n : ℕ) (w : Call) (call : ℕ → Call) (s : System) : System → Type 0 where
  here : Run n w call s s
  further : {u v : System} → Run n w call s u → Step n w call u v → Run n w call s v

-- All before their calls.
abbrev pub fresh : Io → System
fresh dev = record { dev = dev; writer = starting; readers = λ t. testing }
