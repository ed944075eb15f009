-- ===== src/QueueDev/Bytes/Bounds.antt =====
-- A single writer of QueueDev/Bytes.antt stays inside the array, whatever the readers do.
use linux_dev_note.Common.{
  ℕ, zero, suc, ◌≤◌, ◌<◌, ◌≡◌, refl, ◌∙◌, arith, length, length-set, subst, Bool, false, leb, ◌||◌,
}
use linux_dev_note.Common.Int.{pos, ltb_ℤ}
use linux_dev_note.QueueDev.{Dev}
use linux_dev_note.QueueDev.Bytes.{
  WriteCall, ReadCall, Writer, starting, at_test, storing, counting, behind_loop, delayed, returned,
  Reader, System, Writes, start, enter, leave, store, fault, count, wake_up, return, Reads, pass,
  fail, sleep, wake, clear, copy, short, finish, Step, writer_moves, reader_moves, Run, here,
  further, fresh,
}

-- What `buff_len` is, by where the writer stands.
abbrev Within : ℕ → Writer → ℕ → Type 0
Within size starting len = Unit {0}
Within size (at_test i) len = len ≤ size
Within size (storing i) len = len < size
Within size (counting i) len = len < size
Within size behind_loop len = len ≤ size
Within size delayed len = len ≤ size
Within size (returned r) len = (k : ℕ) × (r ≡ pos k) × (k ≤ size)

-- A reader sets it to 0.
Within-zero : (size : ℕ) (q : Writer) (len : ℕ) → Within size q len → Within size q 0
Within-zero size starting len h = h
Within-zero size (at_test i) len h = omega arith
Within-zero size (storing i) len h = omega arith
Within-zero size (counting i) len h = omega arith
Within-zero size behind_loop len h = omega arith
Within-zero size delayed len h = omega arith
Within-zero size (returned r) len h = h

-- whether a writer is about to store behind the end of the array
abbrev pub overruns : Writer → Dev → Bool
overruns (storing i) d = leb (length d.byte) d.buff_len
overruns _ d = false

-- whether a writer has returned an error, or more than its size
abbrev pub odd_result : ℕ → Writer → Bool
odd_result size (returned r) = ltb_ℤ (pos size) r || ltb_ℤ r (pos 0)
odd_result size _ = false

Within-overruns :
    (size : ℕ) (q : Writer) (d : Dev)
    → size ≤ length d.byte
    → Within size q d.buff_len
    → (overruns q d ≡ false) × (odd_result size q ≡ false)
Within-overruns size starting d fits h = (refl, refl)
Within-overruns size (at_test i) d fits h = (refl, refl)
Within-overruns size (storing i) d fits h = (ground arith, refl)
Within-overruns size (counting i) d fits h = (refl, refl)
Within-overruns size behind_loop d fits h = (refl, refl)
Within-overruns size delayed d fits h = (refl, refl)
Within-overruns size (returned r) d fits (k, e, le) = (refl, rw e ground arith)

module _ (writes : ℕ → WriteCall) (reads : ℕ → ReadCall) where
  abbrev size : ℕ
  size = (writes 0).size

  Writes-Within :
      {d d' : Dev} {q w : Writer}
      → Writes writes reads 0 d q d' w
      → Within size q d.buff_len
      → Within size w d'.buff_len
  Writes-Within start h = omega arith
  Writes-Within (enter i lt) h = lt
  Writes-Within (leave i le) h = h
  Writes-Within (store i v lt e) h = h
  Writes-Within (fault i lt e) h = omega arith
  Writes-Within (count i) h = omega arith
  Writes-Within wake_up h = h
  Writes-Within {d} return h = (d.buff_len, refl, h)

  Writes-length :
      {t : ℕ} {d d' : Dev} {q w : Writer}
      → Writes writes reads t d q d' w
      → length d'.byte ≡ length d.byte
  Writes-length start = refl
  Writes-length (enter i lt) = refl
  Writes-length (leave i le) = refl
  Writes-length {d = d} (store i v lt e) = length-set d.byte d.buff_len v
  Writes-length {d = d} (fault i lt e) = length-set d.byte d.buff_len _
  Writes-length (count i) = refl
  Writes-length wake_up = refl
  Writes-length return = refl

  Reads-Within :
      {t : ℕ} {d d' : Dev} {q r : Reader} (w : Writer)
      → Reads writes reads t d q d' r
      → Within size w d.buff_len
      → Within size w d'.buff_len
  Reads-Within w (pass a) h = h
  Reads-Within w (fail e a) h = h
  Reads-Within w (sleep a) h = h
  Reads-Within w wake h = h
  Reads-Within w clear h = h
  Reads-Within w (copy le ok) h = h
  Reads-Within w (short le ok) h = h
  Reads-Within w (finish out) h = Within-zero size w _ h

  Reads-length :
      {t : ℕ} {d d' : Dev} {q r : Reader}
      → Reads writes reads t d q d' r
      → length d'.byte ≡ length d.byte
  Reads-length (pass a) = refl
  Reads-length (fail e a) = refl
  Reads-length (sleep a) = refl
  Reads-length wake = refl
  Reads-length clear = refl
  Reads-length (copy le ok) = refl
  Reads-length (short le ok) = refl
  Reads-length (finish out) = refl

  record Inv (capacity : ℕ) (s : System) : Type 0 where
    within : Within size (s.writer 0) s.dev.buff_len
    full : length s.dev.byte ≡ capacity

  Step-Inv :
      (capacity : ℕ) {s u : System} → Step writes reads 1 s u → Inv capacity s → Inv capacity u
  Step-Inv capacity {s} (writer_moves zero q w d lt e st) v = record {
    within = Writes-Within st (subst (λ x. Within size x s.dev.buff_len) e v.within);
    full = Writes-length st ∙ v.full;
  }
  Step-Inv capacity (writer_moves (suc t) q w d lt e st) v = absurd (omega arith)
  Step-Inv capacity {s} (reader_moves t q r d e st) v = record {
    within = Reads-Within (s.writer 0) st v.within;
    full = Reads-length st ∙ v.full;
  }

  Run-Inv : (dev : Dev) {s : System} → Run writes reads 1 (fresh dev) s → Inv (length dev.byte) s
  Run-Inv dev here = record { within = tt; full = refl }
  Run-Inv dev (further r st) = Step-Inv (length dev.byte) st (Run-Inv dev r)

-- One writer whose bytes the array has room for, and any number of readers, which set `buff_len` back
-- behind the writer's test or anywhere else: in every reachable state the writer is not about to store
-- behind the end of the array, and where it has returned, the result is from 0 to its size.
pub one_writer_inside :
    (writes : ℕ → WriteCall) (reads : ℕ → ReadCall) (dev : Dev) (s : System)
    → (writes 0).size ≤ length dev.byte
    → Run writes reads 1 (fresh dev) s
    → (overruns (s.writer 0) s.dev ≡ false) × (odd_result (writes 0).size (s.writer 0) ≡ false)
one_writer_inside writes reads dev s fits r =
    let v = Run-Inv writes reads dev r in
    Within-overruns (writes 0).size (s.writer 0) s.dev (omega (arith, v.full)) v.within
