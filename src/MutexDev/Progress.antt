-- ===== src/MutexDev/Progress.antt =====
-- Every call of the driver of MutexDev/Locked.antt can be brought to its end.
use linux_dev_note.Common.{
  ℕ, zero, suc, ◌+◌, ◌-◌, ◌≡◌, ◌≢◌, refl, ap, subst, sym, ◌∙◌, Bool, true, false, List, arith,
  ℕ_discrete, dec_lt, update,
}
use linux_dev_note.MutexDev.{mem_size, copy_byte}
use linux_dev_note.MutexDev.Threads.{
  Job, Pc, entering, copying, reading, skipped, wrote, got, System, critical,
}
use linux_dev_note.MutexDev.Locked.{
  count_of, shown, Step, skip, lock_write, copy, unlock_write, lock_read, unlock_read, Reach,
}
use linux_dev_note.MutexDev.Order.{Alone, free, held_write, held_read}
use linux_dev_note.MutexDev.Serial.{Reach-Inv}

-- whether a call has returned
abbrev pub finished : Pc → Bool
finished skipped = true
finished wrote = true
finished (got out) = true
finished _ = false

-- A run of any number of steps.
pub data Run (job : ℕ → Job) (s : System) : System → Type 0 where
  here : Run job s s
  further : {u w : System} → Run job s u → Step job u w → Run job s w

module _ (job : ℕ → Job) (initial : List ℕ) (from : System) where
  -- A run in which only `t` moves, until it has returned and the mutex is free.
  record Released (s : System) (t : ℕ) : Type 0 where
    last : System
    reach : Run job from last
    freed : last.locked ≡ false
    own : finished (last.pc t) ≡ true
    others : (u : ℕ) → u ≢ t → last.pc u ≡ s.pc u

  finish_write :
      (n t i : ℕ) (s : System)
      → Run job from s
      → s.pc t ≡ copying i
      → i + n ≡ count_of job t
      → Released s t
  finish_write zero t i s r e h = record {
    last = record s { locked = false; pc = update s.pc t wrote };
    reach = further r (unlock_write t i e (omega arith));
    freed = refl;
    own = ground arith;
    others = λ u ne. ground arith;
  }
  finish_write (suc n) t i s r e h =
      let on =
        finish_write n t (suc i)
          (record s {
            mem = copy_byte (job t).buff s.mem (job t).p i;
            pc = update s.pc t (copying (suc i));
          })
          (further r (copy t i e (omega arith))) (ground arith) (omega arith) in
      record {
        last = on.last;
        reach = on.reach;
        freed = on.freed;
        own = on.own;
        others = λ u ne. on.others u ne ∙ ground arith;
      }

  finish_read : (t : ℕ) (s : System) → Run job from s → s.pc t ≡ reading → Released s t
  finish_read t s r e = record {
    last = record s { locked = false; pc = update s.pc t (got (shown job t s.mem)) };
    reach = further r (unlock_read t e);
    freed = refl;
    own = ground arith;
    others = λ u ne. ground arith;
  }

  Ends : ℕ → Type 0
  Ends t = (w : System) × Run job from w × (finished (w.pc t) ≡ true)

  from_release : {s : System} {t : ℕ} → Released s t → Ends t
  unfolding Ends
  from_release r = (r.last, r.reach, r.own)

  -- A call that has not taken the mutex, and the mutex is free.
  enter :
      (t : ℕ) (s : System) (w : Bool)
      → Run job from s
      → s.locked ≡ false
      → s.pc t ≡ entering
      → (job t).writes ≡ w
      → Ends t
  unfolding Ends
  enter t s true r f e k = elim (dec_lt (job t).p mem_size) [
    | yes h ↦ from_release (
        finish_write (count_of job t) t 0
          (record s { locked = true; pc = update s.pc t (copying 0) })
          (further r (lock_write t e k h f)) (ground arith) (omega arith))
    | no h ↦ (_, further r (skip t e (omega arith)), ground arith)
  ]
  enter t s false r f e k = elim (dec_lt (job t).p mem_size) [
    | yes h ↦ from_release (
        finish_read t (record s { locked = true; pc = update s.pc t reading })
          (further r (lock_read t e k h f)) (ground arith))
    | no h ↦ (_, further r (skip t e (omega arith)), ground arith)
  ]

  at_turn :
      (t : ℕ) (s : System) (q : Pc)
      → Run job from s
      → s.locked ≡ false
      → s.pc t ≡ q
      → critical q ≡ false
      → Ends t
  unfolding Ends
  at_turn t s entering r f e c = enter t s (job t).writes r f e refl
  at_turn t s (copying i) r f e c = absurd (cc)
  at_turn t s reading r f e c = absurd (cc)
  at_turn t s skipped r f e c = (s, r, ap finished e)
  at_turn t s wrote r f e c = (s, r, ap finished e)
  at_turn t s (got out) r f e c = (s, r, ap finished e)

  -- Behind the call that holds the mutex.
  behind : (t o : ℕ) (s : System) → Released s o → Alone job initial o s.pc → Ends t
  unfolding Ends
  behind t o s rel q = elim (ℕ_discrete t o) [
    | yes e ↦ subst Ends (sym e) (from_release rel)
    | no n ↦ at_turn t rel.last (s.pc t) rel.reach rel.freed (rel.others t n) (q t n)
  ]

module _ (job : ℕ → Job) (initial : List ℕ) where
  -- From every reachable state, whatever the calls are about, a run leads on that brings a call, whichever
  -- it is, to its end: no call is shut out by the mutex for good.
  pub can_finish :
      (t : ℕ) {s : System}
      → Reach job initial s
      → (w : System) × Run job s w × (finished (w.pc t) ≡ true)
  unfolding Ends
  can_finish t {s} r = elim (Reach-Inv job initial r).phase [
    | free l m q ↦ at_turn job initial s t s (s.pc t) here l refl (q t)
    | held_write o i l at le ins m q ↦
        behind job initial s t o s
          (finish_write job initial s (count_of job o - i) o i s here at (omega arith)) q
    | held_read o l at m q ↦ behind job initial s t o s (finish_read job initial s o s here at) q
  ]
