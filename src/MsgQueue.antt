-- ===== src/MsgQueue.antt =====
-- The parent and the child of 01-ProcessCtrl/Mesge_queues_RW.c. The parent goes on only when the child
-- has ended (waitpid), so their calls come one after the other. The message queue is an interface.
-- msgsnd and msgrcv take a `long` and then as many bytes as they are told: 8 bytes more than the
-- array `buf_w` or `buf_r` has, so the memory here is the array and what lies behind it.
pub mod Session
pub mod Program
use linux_dev_note.Common.{
  ℕ, ◌+◌, ◌<◌, ◌≤◌, ◌≡◌, Bool, true, false, List, [], ◌∷◌, ◌++◌, Option, none, some, length, take,
  drop, if◌then◌else◌,
}
use linux_dev_note.Common.Int.{ℤ, pos}
use linux_dev_note.Common.Bytes.{blit, slice}
use linux_dev_note.Common.CString.{c_string}

-- the size of `buf_r` and of `buf_w`, and that of a `long`
abbrev pub buf_bytes : ℕ
buf_bytes = 0xff

abbrev pub long_bytes : ℕ
long_bytes = 8

-- A message: the bytes of its type, and its text.
pub record Message : Type 0 where
  pub mtype : List ℕ
  pub text : List ℕ

pub record QueueCalls : Type 1 where
  pub Queue : Type 0
  pub messages : Queue → List Message
  pub send : Queue → Message → Option Queue  -- msgsnd; `none`: -1
  pub receive : Queue → Option (Message × Queue)  -- msgrcv of any type, without waiting; `none`: -1

-- A message that is taken in stands last; what is received is the first.
pub record IsQueueCalls (c : QueueCalls) : Type 0 where
  pub send_last :
      (q q' : c.Queue) (m : Message) → c.send q m ≡ some q' → c.messages q' ≡ c.messages q ++ m ∷ []
  pub receive_first :
      (q : c.Queue) (m : Message) (ms : List Message)
      → c.messages q ≡ m ∷ ms
      → (q' : c.Queue) × (c.receive q ≡ some (m, q')) × (c.messages q' ≡ ms)

-- "hello word.\n"
abbrev pub hello_word : List ℕ
hello_word = b'h' ∷ b'e' ∷ b'l' ∷ b'l' ∷ b'o' ∷ b' ' ∷ b'w' ∷ b'o' ∷ b'r' ∷ b'd' ∷ b'.' ∷ 10 ∷ []

-- what msgsnd(msg_id, buf_w, sizeof(buf_w), 0) takes from the memory at `buf_w`
unfoldable pub taken : List ℕ → Message
taken mem = record { mtype = slice mem 0 long_bytes; text = slice mem long_bytes buf_bytes }

module _ (c : QueueCalls) where
  open c use {Queue, send, receive}

  -- The child, on the memory at `buf_w`: the queue after it, or `none` where msgsnd fails.
  unfoldable pub child : List ℕ → Queue → Option Queue
  unfolding taken
  child mem q = send q (taken (blit mem 0 (hello_word ++ 0 ∷ [])))

  -- What the parent comes to: the string printed, with the memory at `buf_r` and the queue after it;
  -- or msgrcv has failed.
  pub data ParentRun : Type 0 where
    fails : ParentRun
    reads : Option (List ℕ) → List ℕ → Queue → ParentRun

  -- msgrcv puts the type and the text into the memory at `buf_r`.
  unfoldable pub parent : List ℕ → Queue → ParentRun
  parent mem q = elim (receive q) [
    | none ↦ fails
    | some (m, q') ↦
        reads (c_string (blit mem 0 (m.mtype ++ m.text))) (blit mem 0 (m.mtype ++ m.text)) q'
  ]

  -- `main` where msgget and fork succeed; a child that cannot send leaves the queue as it was.
  unfoldable pub main : List ℕ → List ℕ → Queue → ParentRun
  unfolding child parent
  main mem_w mem_r q = elim (child mem_w q) [ none ↦ parent mem_r q | some q' ↦ parent mem_r q' ]
