-- ===== src/SemaphoreDev/Count.antt =====
-- The count of the semaphore of 03-fileOperate/semaphore/semaphore_drv.c over the calls made.
use linux_dev_note.Common.{ℕ, ◌+◌, ◌≤◌, ◌<◌, ◌≡◌, ◌↔◌, arith}
use linux_dev_note.Common.Int.{pos}
use linux_dev_note.SemaphoreDev.{
  System, waiting, done, Step, up, down, read, write, Reach, start, later,
}

-- In every reachable state the count and the reads that have returned make up one more than the
-- writes that have.
count-add-reads : {s : System} → Reach s → s.count + s.reads ≡ s.writes + 1
unfolding read write
count-add-reads start = omega arith
count-add-reads (later r (up cnt)) = omega (arith, count-add-reads r)
count-add-reads (later r (down t e h)) = omega (arith, count-add-reads r)

-- A waiting reader of a reachable state where no more reads than writes have returned can return,
-- with 0.
waiting-Step :
    {s : System} (t : ℕ)
    → Reach s
    → s.pc t ≡ waiting
    → s.reads ≤ s.writes
    → (u : System) × Step s u × (u.pc t ≡ done (pos 0)) × (u.reads ≡ s.reads + 1)
unfolding read
waiting-Step {s} t r e h =
    (_, down t e (omega (arith, count-add-reads r)), ground (arith), omega arith)

-- Only its own `down` lets it return.
returning-counts :
    {s u : System} (t : ℕ) → Step s u → s.pc t ≡ waiting → u.pc t ≡ done (pos 0) → 0 < s.count
returning-counts t (up cnt) e f = absurd (cc)
returning-counts t (down o at h) e f = h

-- In every reachable state the count and the reads that have returned make up one more than the writes
-- that have; and a waiting reader can return, with 0, just where no more reads than writes have returned.
pub can_return :
    (s : System) (t : ℕ)
    → Reach s
    → s.pc t ≡ waiting
    → (s.count + s.reads ≡ s.writes + 1)
      × (((u : System) × Step s u × (u.pc t ≡ done (pos 0))) ↔ (s.reads ≤ s.writes))
can_return s t r e = (
  count-add-reads r,
  (
    λ (u, st, f). omega (arith, count-add-reads r, returning-counts t st e f),
    λ h. let (u, st, f, more) = waiting-Step t r e h in (u, st, f),
  ),
)
