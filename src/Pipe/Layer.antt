-- ===== src/Pipe/Layer.antt =====
-- Pipes and FIFOs, which the kernel implements: an interface of the calls on one, and the laws that
-- pipe(7) gives.
use linux_dev_note.Common.{ℕ, ◌+◌, ◌≤◌, ◌≡◌, List, ◌++◌, Option, some, length, take, drop}

-- PIPE_BUF of Linux
abbrev pub pipe_buf : ℕ
pipe_buf = 4096

pub record PipeCalls : Type 1 where
  pub Pipe : Type 0
  pub contents : Pipe → List ℕ  -- the bytes written and not yet read
  pub push : Pipe → List ℕ → Option Pipe  -- a write of at most PIPE_BUF bytes; `none`: no room
  pub pull : Pipe → ℕ → List ℕ × Pipe  -- a read where there are bytes

pub record IsPipeCalls (c : PipeCalls) : Type 0 where
  -- A write is whole or is not made, and one that PIPE_BUF has room for is made.
  pub push_whole :
      (p p' : c.Pipe) (xs : List ℕ) → c.push p xs ≡ some p' → c.contents p' ≡ c.contents p ++ xs
  pub push_room :
      (p : c.Pipe) (xs : List ℕ)
      → length (c.contents p) + length xs ≤ pipe_buf
      → (p' : c.Pipe) × (c.push p xs ≡ some p')
  -- A read takes from the front what there is, up to the bytes asked for.
  pub pull_out : (p : c.Pipe) (n : ℕ) → (c.pull p n).0 ≡ take n (c.contents p)
  pub pull_rest : (p : c.Pipe) (n : ℕ) → c.contents (c.pull p n).1 ≡ drop n (c.contents p)
