-- ===== src/Fifo.antt =====
-- The FIFO programs: fifo_write.c and fifo_Read.c of 01-ProcessCtrl (the same texts stand in
-- 03-fileOperate/fileOperate), fifoRead_block.c, which opens without O_NONBLOCK, and
-- fifoRead_selectBlock.c, which waits in select. What the system calls answer is an argument, or
-- comes from the FIFO interface of Pipe/Layer.antt.
pub mod Writer
pub mod Queue
pub mod Select
use linux_dev_note.Common.{
  ℕ, zero, suc, ◌≡◌, Bool, true, false, List, [], ◌∷◌, ◌++◌, Option, none, some, ltb, ◌==◌, length,
  if◌then◌else◌, replicate,
}
use linux_dev_note.Common.Int.{ℤ, pos, negsuc, eagain}
use linux_dev_note.Common.Bytes.{blit}
use linux_dev_note.Common.CString.{c_string}

-- the size of `w_buf` and of `buf_r`
abbrev pub buf_size : ℕ
buf_size = 100

-- What write and read answer: what they did, or errno.
pub data WriteAnswer : Type 0 where
  wrote : ℕ → WriteAnswer
  failed : ℕ → WriteAnswer

pub data ReadAnswer : Type 0 where
  bytes : List ℕ → ReadAnswer
  error : ℕ → ReadAnswer

-- `w_buf` behind the strcpy of a string; `none` where the string and its final 0 are longer than the
-- array, which is undefined in C.
unfoldable pub strcpy : List ℕ → List ℕ → Option (List ℕ)
strcpy w_buf arg =
    if ltb (length arg) (length w_buf) then some (blit w_buf 0 (arg ++ 0 ∷ [])) else none

-- What a run of fifo_write.c comes to.
pub data WriterRun : Type 0 where
  usage : WriterRun  -- "Please send something"
  overrun : WriterRun  -- strcpy behind the array
  says_later : WriterRun  -- "The FIFO has not been read yet"
  says_nothing : WriterRun  -- another error
  says_written : Option (List ℕ) → WriterRun  -- the string printed

-- `main`: `arg` is argv[1], if any; `write` answers the write of 100 bytes. The result of open is not
-- tested.
unfoldable pub writer_main : (List ℕ → WriteAnswer) → List ℕ → Option (List ℕ) → WriterRun
unfolding strcpy
writer_main write w_buf none = WriterRun.usage
writer_main write w_buf (some arg) = elim (strcpy w_buf arg) [
  | none ↦ WriterRun.overrun
  | some w_buf' ↦ elim (write w_buf') [
    | wrote n ↦ WriterRun.says_written (c_string w_buf')
    | failed e ↦ if e == eagain then WriterRun.says_later else WriterRun.says_nothing
  ]
]

-- One round of a reader's loop: whether it says "no data yet", and the string printed.
pub record Round : Type 0 where
  pub no_data : Bool
  pub printed : Option (List ℕ)

abbrev pub zeros : List ℕ
zeros = replicate buf_size 0

-- `buf_r` behind a read; read gives no more bytes than it is asked for
abbrev pub filled : List ℕ → ReadAnswer → List ℕ
filled buf_r (bytes xs) = blit buf_r 0 xs
filled buf_r (error e) = buf_r

abbrev pub says_no_data : ReadAnswer → Bool
says_no_data (bytes xs) = false
says_no_data (error e) = e == eagain

-- the body of `while(1)` of fifo_Read.c
unfoldable pub read_round : ReadAnswer → Round
read_round answer = record {
  no_data = says_no_data answer;
  printed = c_string (filled zeros answer);
}

-- `main` of fifo_Read.c, as far as the answers go: it exits with 1 where open fails.
pub data ReaderRun : Type 0 where
  exits : ℕ → ReaderRun
  rounds : List Round → ReaderRun

abbrev pub read_rounds : List ReadAnswer → List Round
read_rounds [] = []
read_rounds (a ∷ answers) = read_round a ∷ read_rounds answers

unfoldable pub reader_main : Bool → List ReadAnswer → ReaderRun
reader_main opened answers =
    if opened then ReaderRun.rounds (read_rounds answers) else ReaderRun.exits 1

-- What select answers: nothing in five seconds, -1, or that the FIFO can be read, with what read then
-- answers.
pub data SelectAnswer : Type 0 where
  timeout fails : SelectAnswer
  ready : ReadAnswer → SelectAnswer

-- What a round of fifoRead_selectBlock.c prints.
pub data SelectRound : Type 0 where
  says_timeout says_fail : SelectRound
  reads : Round → SelectRound

-- The body of its `while(1)`, with `buf_r` before and behind it: here the array is set to 0 behind the
-- read.
unfoldable pub select_round : List ℕ → SelectAnswer → SelectRound × List ℕ
select_round buf_r timeout = (SelectRound.says_timeout, buf_r)
select_round buf_r fails = (SelectRound.says_fail, buf_r)
select_round buf_r (ready answer) = (
  SelectRound.reads
      (record { no_data = says_no_data answer; printed = c_string (filled buf_r answer) }),
  zeros,
)

unfoldable pub select_rounds : List ℕ → List SelectAnswer → List SelectRound
unfolding select_round
select_rounds buf_r [] = []
select_rounds buf_r (a ∷ answers) =
    (select_round buf_r a).0 ∷ select_rounds (select_round buf_r a).1 answers

-- `main` of fifoRead_selectBlock.c
pub data SelectRun : Type 0 where
  exits : ℕ → SelectRun
  goes_on : List SelectRound → SelectRun

unfoldable pub select_main : Bool → List SelectAnswer → SelectRun
select_main opened answers =
    if opened then SelectRun.goes_on (select_rounds zeros answers) else SelectRun.exits 1
