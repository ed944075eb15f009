-- ===== src/MutexDev/Bounded.antt =====
-- How long the calls of MutexDev/Locked.antt take together, whatever the order of their steps.
use linux_dev_note.Common.{
  ℕ, zero, suc, ◌+◌, ◌-◌, ◌≤◌, ◌<◌, ◌≡◌, ◌≢◌, ◌⊎◌, inl, inr, refl, ap, ◌∙◌, true, false, List,
  arith, ℕ_discrete, dec_lt, Bool-cases, update, update-same, update-other,
}
use linux_dev_note.MutexDev.{mem_size}
use linux_dev_note.MutexDev.Threads.{
  Job, Pc, entering, copying, reading, skipped, wrote, got, System, fresh, critical,
}
use linux_dev_note.MutexDev.Locked.{
  count_of, shown, Step, skip, lock_write, copy, unlock_write, lock_read, unlock_read, Reach, start,
  later,
}
use linux_dev_note.MutexDev.Order.{free, held_write, held_read}
use linux_dev_note.MutexDev.Serial.{Reach-Inv}
use linux_dev_note.MutexDev.Progress.{finished}

module _ (job : ℕ → Job) where
  -- The steps that a call has left.
  abbrev pub left : ℕ → Pc → ℕ
  left t entering = count_of job t + 2
  left t (copying i) = count_of job t - i + 1
  left t reading = 1
  left t _ = 0

  -- those of the first `n` threads
  abbrev pub total : ℕ → (ℕ → Pc) → ℕ
  total zero pc = 0
  total (suc n) pc = left n (pc n) + total n pc

  total-above : (n t : ℕ) (pc : ℕ → Pc) (x : Pc) → n ≤ t → total n (update pc t x) ≡ total n pc
  total-above zero t pc x h = refl
  total-above (suc n) t pc x h = ground (arith, total-above n t pc x)

  total-update :
      (n t : ℕ) (pc : ℕ → Pc) (x : Pc)
      → t < n
      → total n (update pc t x) + left t (pc t) ≡ total n pc + left t x
  total-update zero t pc x h = absurd (omega arith)
  total-update (suc n) t pc x h = elim (ℕ_discrete t n) [
    | yes e ↦
        let above = total-above n n pc x (omega arith) in rw (e, update-same pc n x) omega arith
    | no ne ↦
        let below = total-update n t pc x (omega arith) in rw (update-other pc t n x ne) omega arith
  ]

  -- the thread that a step moves
  abbrev pub mover : {s u : System} → Step job s u → ℕ
  mover (skip t e h) = t
  mover (lock_write t e w h f) = t
  mover (copy t i e h) = t
  mover (unlock_write t i e h) = t
  mover (lock_read t e w h f) = t
  mover (unlock_read t e) = t

  -- A run of `k` steps of the first `n` threads.
  pub data Steps (n : ℕ) (s : System) : ℕ → System → Type 0 where
    none_yet : Steps n s 0 s
    one_more :
        {k : ℕ} {u w : System}
        → Steps n s k u
        → (st : Step job u w) → mover st < n
        → Steps n s (suc k) w

  lower :
      (n t : ℕ) (pc : ℕ → Pc) (x q : Pc)
      → t < n
      → pc t ≡ q
      → left t x < left t q
      → total n (update pc t x) < total n pc
  lower n t pc x q lt e h = omega (arith, total-update n t pc x lt, ap (left t) e)

  Step-total :
      (n : ℕ) {s u : System} (st : Step job s u) → mover st < n → total n u.pc < total n s.pc
  Step-total n {s} (skip t e h) lt = lower n t s.pc skipped entering lt e (omega arith)
  Step-total n {s} (lock_write t e w h f) lt =
      lower n t s.pc (copying 0) entering lt e (omega arith)
  Step-total n {s} (copy t i e h) lt =
      lower n t s.pc (copying (suc i)) (copying i) lt e (omega arith)
  Step-total n {s} (unlock_write t i e h) lt = lower n t s.pc wrote (copying i) lt e (omega arith)
  Step-total n {s} (lock_read t e w h f) lt = lower n t s.pc reading entering lt e (omega arith)
  Step-total n {s} (unlock_read t e) lt =
      lower n t s.pc (got (shown job t s.mem)) reading lt e (omega arith)

  Steps-total : (n : ℕ) {s u : System} {k : ℕ} → Steps n s k u → k + total n u.pc ≤ total n s.pc
  Steps-total n none_yet = omega arith
  Steps-total n (one_more r st lt) =
      let one = Step-total n st lt in let ih = Steps-total n r in omega arith

  Steps-Reach :
      (n : ℕ) (mem : List ℕ) {u : System} {k : ℕ} → Steps n (fresh mem) k u → Reach job mem u
  Steps-Reach n mem none_yet = start
  Steps-Reach n mem (one_more r st lt) = later (Steps-Reach n mem r) st

  -- The other threads stand still.
  Step-idle : {s u : System} (st : Step job s u) (t : ℕ) → mover st ≢ t → u.pc t ≡ s.pc t
  Step-idle {s} (skip t e h) u ne = update-other s.pc t u _ ne
  Step-idle {s} (lock_write t e w h f) u ne = update-other s.pc t u _ ne
  Step-idle {s} (copy t i e h) u ne = update-other s.pc t u _ ne
  Step-idle {s} (unlock_write t i e h) u ne = update-other s.pc t u _ ne
  Step-idle {s} (lock_read t e w h f) u ne = update-other s.pc t u _ ne
  Step-idle {s} (unlock_read t e) u ne = update-other s.pc t u _ ne

  Steps-idle : (n : ℕ) {s u : System} {k : ℕ} → Steps n s k u → (t : ℕ) → n ≤ t → u.pc t ≡ s.pc t
  Steps-idle n none_yet t le = refl
  Steps-idle n (one_more r st lt) t le =
      Step-idle st t (λ e. omega (arith, e)) ∙ Steps-idle n r t le

  -- The first `n` threads have all returned, or one has not.
  all_or_one :
      (n : ℕ) (pc : ℕ → Pc)
      → ((t : ℕ) × (t < n) × (finished (pc t) ≡ false)) ⊎ ((t : ℕ) → t < n → finished (pc t) ≡ true)
  all_or_one zero pc = inr (λ t lt. elim lt [ ])
  all_or_one (suc n) pc = elim (Bool-cases (finished (pc n))) [
    | inr f ↦ inl (n, omega arith, f)
    | inl e ↦ elim (all_or_one n pc) [
      | inl (t, lt, f) ↦ inl (t, omega arith, f)
      | inr all ↦ inr (λ t lt. ground (arith, all t))
    ]
  ]

  -- A step of one of the first `n` threads.
  abbrev pub More : ℕ → System → Type 0
  More n s = (u : System) × (st : Step job s u) × (mover st < n)

  enter : (n t : ℕ) (s : System) → t < n → s.locked ≡ false → s.pc t ≡ entering → More n s
  enter n t s lt f e = elim (dec_lt (job t).p mem_size) [
    | no h ↦ (_, skip t e (omega arith), lt)
    | yes h ↦ elim (Bool-cases (job t).writes) [
      | inl w ↦ (_, lock_write t e w h f, lt)
      | inr w ↦ (_, lock_read t e w h f, lt)
    ]
  ]

  unfinished_free :
      (n t : ℕ) (s : System) (q : Pc)
      → t < n
      → s.locked ≡ false
      → s.pc t ≡ q
      → critical q ≡ false
      → finished q ≡ false
      → More n s
  unfinished_free n t s entering lt f e c h = enter n t s lt f e
  unfinished_free n t s (copying i) lt f e c h = ground arith
  unfinished_free n t s reading lt f e c h = ground arith
  unfinished_free n t s skipped lt f e c h = ground arith
  unfinished_free n t s wrote lt f e c h = ground arith
  unfinished_free n t s (got out) lt f e c h = ground arith

  owner_inside :
      (n : ℕ) (mem : List ℕ) {u : System} {k : ℕ} (o : ℕ)
      → Steps n (fresh mem) k u
      → critical (u.pc o) ≡ true
      → o < n
  owner_inside n mem {u} o r c = elim (dec_lt o n) [
    | yes lt ↦ lt
    | no ge ↦
        let at : critical (u.pc o) ≡ false = ap critical (Steps-idle n r o (omega arith)) in
        absurd (ground arith)
  ]

  goes_on :
      (n : ℕ) (mem : List ℕ) (u : System) {k : ℕ} (t : ℕ)
      → Steps n (fresh mem) k u
      → t < n
      → finished (u.pc t) ≡ false
      → More n u
  goes_on n mem u t r lt f = elim (Reach-Inv job mem (Steps-Reach n mem r)).phase [
    | free l m q ↦ unfinished_free n t u (u.pc t) lt l refl (q t) f
    | held_write o i l at le ins m q ↦
        let inside = owner_inside n mem o r (ap critical at) in
        elim (dec_lt i (count_of job o)) [
          | yes h ↦ (_, copy o i at h, inside)
          | no h ↦ (_, unlock_write o i at (omega arith), inside)
        ]
    | held_read o l at m q ↦ (_, unlock_read o at, owner_inside n mem o r (ap critical at))
  ]

  -- `n` threads make a call each, with the mutex and in whatever order they run: no run has more steps
  -- than the counts of the calls and two for each, and each run can go on or has brought all the calls to
  -- their ends. So the threads neither wait for one another without end nor go round without end.
  pub all_end :
      (n : ℕ) (mem : List ℕ) (u : System) (k : ℕ)
      → Steps n (fresh mem) k u
      → (k ≤ total n (λ t. entering)) × (More n u ⊎ ((t : ℕ) → t < n → finished (u.pc t) ≡ true))
  all_end n mem u k r = (
    let all = Steps-total n r in omega arith,
    elim (all_or_one n u.pc) [
      | inl (t, lt, f) ↦ inl (goes_on n mem u t r lt f)
      | inr all ↦ inr all
    ],
  )
