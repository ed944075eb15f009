-- ===== src/Pipe.antt =====
-- The parent and the child of 01-ProcessCtrl/pipe_rw.c, which run at the same time: a step is one
-- system call of one of them. The pipe is an interface of the kernel's, PipeCalls; the sleeps are
-- left out, so the steps come in every order that the calls allow.
pub mod Layer
pub mod Safety
pub mod Progress
use linux_dev_note.Common.{
  ℕ, zero, suc, ◌≡◌, ◌<◌, Bool, true, false, List, [], ◌∷◌, Option, none, some, length, replicate,
}
use linux_dev_note.Common.Int.{ℤ, pos, negsuc}
use linux_dev_note.Common.Bytes.{blit}
use linux_dev_note.Common.CString.{c_string}
use Layer.{PipeCalls}

-- "Hello" and " Pipe"
abbrev pub hello : List ℕ
hello = b'H' ∷ b'e' ∷ b'l' ∷ b'l' ∷ b'o' ∷ []

abbrev pub pipe_text : List ℕ
pipe_text = b' ' ∷ b'P' ∷ b'i' ∷ b'p' ∷ b'e' ∷ []

-- Where the parent stands.
pub data Parent : Type 0 where
  first : Parent  -- before the first write
  second : Parent  -- before the second
  closing : Parent  -- before close(pipe_fd[1])
  waiting : Parent  -- in waitpid
  ended : Parent
  killed : Parent  -- by SIGPIPE

-- Where the child stands.
pub data Child : Type 0 where
  born : Child  -- before close(pipe_fd[1])
  reading : Child  -- in read
  got : (out : List ℕ) → Child  -- behind it, with these bytes, before close(pipe_fd[0])
  gone : (out : List ℕ) → Child

-- `buf_r` after a read of `out`; the array was set to 0.
unfoldable pub buf_r : List ℕ → List ℕ
buf_r out = blit (replicate 100 0) 0 out

-- What the child prints: the number and the string, where the read gave more than 0.
unfoldable pub printed : List ℕ → Option (ℕ × Option (List ℕ))
unfolding buf_r
printed [] = none
printed (x ∷ out) = some (length (x ∷ out), c_string (buf_r (x ∷ out)))

-- Whether the process still holds its end for writing, and for reading.
abbrev pub parent_writes : Parent → Bool
parent_writes first = true
parent_writes second = true
parent_writes closing = true
parent_writes _ = false

abbrev pub child_reads : Child → Bool
child_reads (gone out) = false
child_reads _ = true

module _ (c : PipeCalls) where
  open c use {Pipe, contents, push, pull}

  pub record System : Type 0 where
    pub pipe : Pipe
    pub parent : Parent
    pub child : Child

  -- The parent has closed its end for reading, and the child closes its end for writing before it
  -- reads: so a write breaks where the child is gone, and a read ends where the parent has closed.
  pub data Step (s : System) : System → Type 0 where
    write_first :
        (p : Pipe)
        → s.parent ≡ first
        → child_reads s.child ≡ true
        → push s.pipe hello ≡ some p
        → Step s (record s { pipe = p; parent = second })
    write_second :
        (p : Pipe)
        → s.parent ≡ second
        → child_reads s.child ≡ true
        → push s.pipe pipe_text ≡ some p
        → Step s (record s { pipe = p; parent = closing })
    break_first :
        s.parent ≡ first → child_reads s.child ≡ false → Step s (record s { parent = killed })
    break_second :
        s.parent ≡ second → child_reads s.child ≡ false → Step s (record s { parent = killed })
    close_write : s.parent ≡ closing → Step s (record s { parent = waiting })
    wait_child :
        (out : List ℕ)
        → s.parent ≡ waiting
        → s.child ≡ gone out
        → Step s (record s { parent = ended })
    child_close_write : s.child ≡ born → Step s (record s { child = reading })
    child_read :
        s.child ≡ reading
        → 0 < length (contents s.pipe)
        → Step s (record s { pipe = (pull s.pipe 100).1; child = got (pull s.pipe 100).0 })
    child_end :
        s.child ≡ reading
        → contents s.pipe ≡ []
        → parent_writes s.parent ≡ false
        → Step s (record s { child = got [] })
    child_exit : (out : List ℕ) → s.child ≡ got out → Step s (record s { child = gone out })

  abbrev pub forked : Pipe → System
  forked p = record { pipe = p; parent = first; child = born }

  pub data Reach (p : Pipe) : System → Type 0 where
    start : Reach p (forked p)
    later : {s u : System} → Reach p s → Step s u → Reach p u

  -- `main` as far as the fork: what it returns where pipe or fork fails, or the two processes.
  pub data Launch : Type 0 where
    returns : ℤ → Launch
    runs : System → Launch

  unfoldable pub main : Option Pipe → Bool → Launch
  main none forks = Launch.returns (negsuc 0)
  main (some p) false = Launch.returns (pos 0)
  main (some p) true = Launch.runs (forked p)
