-- ===== src/Thread.antt =====
-- The two threads of 01-ProcessCtrl/pthread.c: a step is one call of one of them. The sleep is left out,
-- so the steps come in every order, and the process ends when `main` returns.
pub mod Lines
use linux_dev_note.Common.{ℕ, suc, ◌≡◌, Bool, true, false, List, [], ◌∷◌, ◌++◌, get_elem?, some}
use linux_dev_note.Common.Int.{ℤ, pos, negsuc}

-- `struct menber`
pub record Menber : Type 0 where
  pub a : ℕ
  pub s : List ℕ

-- "SampleCode"
abbrev pub sample_code : List ℕ
sample_code = b'S' ∷ b'a' ∷ b'm' ∷ b'p' ∷ b'l' ∷ b'e' ∷ b'C' ∷ b'o' ∷ b'd' ∷ b'e' ∷ []

-- `*b` as `main` fills it
unfoldable pub filled : Menber
filled = record { a = 4; s = sample_code }

-- What the thread prints; the numbers of thread and process are the kernel's.
pub data Line : Type 0 where
  thread_id process_pid : Line
  menber_a : ℕ → Line
  menber_s : List ℕ → Line

-- `create`, line by line
unfoldable pub create : Menber → List Line
create temp = Line.thread_id ∷ Line.process_pid ∷ Line.menber_a temp.a ∷ Line.menber_s temp.s ∷ []

-- Where `main` stands.
pub data Main : Type 0 where
  making : Main  -- before pthread_create
  greeting : Main  -- before its printf
  sleeping : Main
  returned : ℤ → Main

-- The two threads: `main` prints "phread is not created..." or the number of the process.
pub record Process : Type 0 where
  pub main : Main
  pub main_printed : ℕ  -- lines of `main`
  pub next : ℕ  -- the next line of the thread
  pub out : List Line  -- the lines of the thread that have been printed

-- whether the thread is there, and the process has not ended
abbrev pub runs : Main → Bool
runs greeting = true
runs sleeping = true
runs _ = false

pub data Step (s : Process) : Process → Type 0 where
  made : s.main ≡ making → Step s (record s { main = greeting })
  not_made :
      s.main ≡ making
      → Step s (record s { main = returned (negsuc 0); main_printed = suc s.main_printed })
  greets :
      s.main ≡ greeting → Step s (record s { main = sleeping; main_printed = suc s.main_printed })
  returns : s.main ≡ sleeping → Step s (record s { main = returned (pos 0) })
  prints :
      (l : Line)
      → runs s.main ≡ true
      → get_elem? (create filled) s.next ≡ some l
      → Step s (record s { next = suc s.next; out = s.out ++ l ∷ [] })

abbrev pub begun : Process
begun = record { main = making; main_printed = 0; next = 0; out = [] }

pub data Reach : Process → Type 0 where
  start : Reach begun
  later : {s u : Process} → Reach s → Step s u → Reach u
