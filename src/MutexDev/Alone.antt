-- ===== src/MutexDev/Alone.antt =====
-- A call of the driver without the mutex (03-fileOperate/mutex/unuseMutex/mutex_drv.c) that runs before
-- any other has begun.
use linux_dev_note.Common.{
  ℕ, suc, ◌≤◌, ◌<◌, ◌≡◌, ◌≢◌, refl, ap, subst, Bool, sym, ◌∙◌, true, false, List, arith, ℕ_discrete,
  update, min, ◌-◌, ◌^◌,
}
use linux_dev_note.Common.Int.{pos}
use linux_dev_note.Common.Bytes.{slice, blit}
use linux_dev_note.MutexDev.{mem_size, write, copy_byte, copy_in}
use linux_dev_note.MutexDev.Threads.{
  Job, Pc, entering, copying, reading, skipped, wrote, got, System,
}
use linux_dev_note.MutexDev.Locked.{count_of, shown}
use linux_dev_note.MutexDev.Unlocked.{
  Step, Reach, start, later, skip, begin_write, copy, end_write, read,
}
use linux_dev_note.MutexDev.Transfer.{
  arriving, clamp_count-eq-min, copy_in-eq-blit, read_lem, write_lem,
}
use linux_dev_note.MutexDev.Order.{copy_in-suc, write-eq-copy_in}

-- whether a thread has begun
abbrev begun : Pc → Bool
begun entering = false
begun _ = true

module _ (job : ℕ → Job) (initial : List ℕ) (t : ℕ) where
  -- Nobody but `t` has begun.
  abbrev pub First : System → Type 0
  First s = (u : ℕ) → u ≢ t → s.pc u ≡ entering

  -- The memory, by where `t` stands; and what it has read.
  abbrev Ran : Pc → List ℕ → Type 0
  Ran entering mem = mem ≡ initial
  Ran skipped mem = mem ≡ initial
  Ran (copying i) mem =
      (mem ≡ copy_in (job t).buff (job t).p 0 i initial)
      × (i ≤ count_of job t)
      × ((job t).p < mem_size)
  Ran wrote mem =
      mem
      ≡ (write (job t).buff (record { mem = initial; writecount = 0 }) (job t).cnt
          (pos (job t).p)).0.mem
  Ran reading mem = Unit {0}
  Ran (got out) mem = (mem ≡ initial) × (out ≡ shown job t initial)

  -- A step after which nobody but `t` has begun is one of `t`.
  mover :
      (pc : ℕ → Pc) (v : ℕ) (x : Pc)
      → begun x ≡ true
      → ((u : ℕ) → u ≢ t → update pc v x u ≡ entering)
      → v ≡ t
  mover pc v x b f = elim (ℕ_discrete v t) [ yes e ↦ e | no n ↦ absurd (ground (arith, f v n)) ]

  before :
      (pc : ℕ → Pc) (v : ℕ) (x : Pc)
      → v ≡ t
      → ((u : ℕ) → u ≢ t → update pc v x u ≡ entering)
      → (u : ℕ) → u ≢ t
      → pc u ≡ entering
  before pc v x e f u n = ground (arith, f u n)

  update_own : (pc : ℕ → Pc) (x : Pc) → update pc t x t ≡ x
  update_own pc x = ground arith

  -- Such a step, from what it makes of `t` and of the memory.
  moved :
      (s : System) (v : ℕ) (x : ℕ → Pc) (mem' : ℕ → List ℕ)
      → begun (x v) ≡ true
      → (First s → Ran (s.pc t) s.mem)
      → ((u : ℕ) → u ≢ t → update s.pc v (x v) u ≡ entering)
      → (v ≡ t → Ran (s.pc t) s.mem → Ran (x t) (mem' t))
      → Ran (update s.pc v (x v) t) (mem' v)
  moved s v x mem' b k f go =
      let e : v ≡ t = mover s.pc v (x v) b f in
      subst (λ w. Ran (update s.pc w (x w) t) (mem' w)) (sym e)
        (subst (λ q. Ran q (mem' t)) (sym (update_own s.pc (x t)))
          (go e (k (before s.pc v (x v) e f))))

  at : (s : System) {v : ℕ} {q : Pc} → s.pc v ≡ q → v ≡ t → Ran (s.pc t) s.mem → Ran q s.mem
  at s h e r = subst (λ q. Ran q s.mem) (ap s.pc (sym e) ∙ h) r

  no_round : initial ≡ copy_in (job t).buff (job t).p 0 0 initial
  unfolding copy_in
  no_round = refl

  Step-Ran :
      {s u : System} → Step job s u → (First s → Ran (s.pc t) s.mem) → First u → Ran (u.pc t) u.mem
  Step-Ran {s} (skip v e h) k f =
      moved s v (λ w. skipped) (λ w. s.mem) refl k f (λ same r. at s e same r)
  Step-Ran {s} (begin_write v e w h) k f =
      moved s v (λ w. copying 0) (λ w. s.mem) refl k f
        (λ same r.
          (at s e same r ∙ no_round, omega arith, subst (λ w. (job w).p < mem_size) same h))
  Step-Ran {s} (copy v i e h) k f =
      moved s v (λ w. copying (suc i)) (λ w. copy_byte (job w).buff s.mem (job w).p i) refl k f
        (λ same r.
          let (m, le, inside) = at s e same r in
          (
            ap (λ l. copy_byte (job t).buff l (job t).p i) m
                ∙ ap (copy_byte (job t).buff _ (job t).p) (omega arith)
                ∙ sym (copy_in-suc (job t).buff (job t).p 0 i initial),
            omega (arith, subst (λ w. i < count_of job w) same h),
            inside,
          ))
  Step-Ran {s} (end_write v i e h) k f =
      moved s v (λ w. wrote) (λ w. s.mem) refl k f
        (λ same r.
          let (m, le, inside) = at s e same r in
          m
          ∙ ap (λ n. copy_in (job t).buff (job t).p 0 n initial)
              (omega (arith, subst (λ w. count_of job w ≤ i) same h))
          ∙ sym (
              write-eq-copy_in (job t).buff (record { mem = initial; writecount = 0 }) (job t).cnt
                (job t).p inside))
  Step-Ran {s} (read v e w h) k f =
      moved s v (λ w. got (shown job w s.mem)) (λ w. s.mem) refl k f
        (λ same r. let m = at s e same r in (m, ap (shown job t) m))

  Reach-Ran : {s : System} → Reach job initial s → First s → Ran (s.pc t) s.mem
  Reach-Ran start f = refl
  Reach-Ran (later r st) f = Step-Ran st (Reach-Ran r) f

  -- how many bytes the call is about: those of the memory from its position on, up to its count
  abbrev pub in_reach : ℕ
  in_reach = min (job t).cnt (mem_size - (job t).p)

  -- The memory with the first `k` bytes that arrive from the user written over it.
  abbrev pub written_over : ℕ → List ℕ
  written_over k = blit initial (job t).p (arriving (job t).buff initial (job t).p 0 k)

  -- The memory, by where `t` stands, and what it has read, as a byte array has it.
  abbrev pub Leaves : Pc → List ℕ → Type 0
  Leaves entering mem = mem ≡ initial
  Leaves skipped mem = mem ≡ initial
  Leaves (copying i) mem = (mem ≡ written_over i) × (i ≤ in_reach)
  Leaves wrote mem = mem ≡ written_over in_reach
  Leaves reading mem = Unit {0}
  Leaves (got out) mem = (mem ≡ initial) × (out ≡ slice initial (job t).p in_reach)

  Ran-Leaves :
      (q : Pc) (mem : List ℕ)
      → (job t).cnt < 2 ^ 32
      → (job t).p < 2 ^ 63
      → (job t).buff.uncopied in_reach ≡ 0
      → Ran q mem
      → Leaves q mem
  Ran-Leaves entering mem hc hp ok r = r
  Ran-Leaves skipped mem hc hp ok r = r
  Ran-Leaves (copying i) mem hc hp ok (m, le, inside) = (
    m
        ∙ copy_in-eq-blit (job t).buff (job t).p 0 i initial
        ∙ ap (λ q. blit initial q (arriving (job t).buff initial (job t).p 0 i)) (omega arith),
    omega (arith, clamp_count-eq-min (job t).p (job t).cnt inside hc),
  )
  Ran-Leaves wrote mem hc hp ok r =
      r
      ∙ ap (λ q. q.0.mem)
          (write_lem (job t).buff (record { mem = initial; writecount = 0 }) (job t).cnt (job t).p
            hc hp)
  Ran-Leaves reading mem hc hp ok r = tt
  Ran-Leaves (got out) mem hc hp ok (m, shows) = (
    m,
    shows
        ∙ ap (λ q. q.out)
            (read_lem (job t).buff (record { mem = initial; writecount = 0 }) (job t).cnt (job t).p
              hc hp ok),
  )

  -- In every reachable state in which no other thread has begun, for a call of a count below 2^32 at a
  -- position below 2^63, to whose buffer copy_to_user does not fail: the thread's `_write`, where it is
  -- through, has left the memory with what arrives from the user written from the position up to the
  -- count or the end of the memory, and where it has done `i` rounds of its loop, with the first `i` of
  -- these bytes; its `_read`, where it is through, has got the bytes from the position up to the count
  -- or the end of the memory; and before that and after a `_read`, or a call behind the end, the memory
  -- is as it was.
  pub alone_lem :
      {s : System}
      → (job t).cnt < 2 ^ 32
      → (job t).p < 2 ^ 63
      → (job t).buff.uncopied in_reach ≡ 0
      → Reach job initial s
      → First s
      → Leaves (s.pc t) s.mem
  alone_lem {s} hc hp ok r f = Ran-Leaves (s.pc t) s.mem hc hp ok (Reach-Ran r f)
