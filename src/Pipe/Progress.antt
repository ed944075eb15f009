-- ===== src/Pipe/Progress.antt =====
-- The two processes of 01-ProcessCtrl/pipe_rw.c come to their ends.
use linux_dev_note.Common.{
  ℕ, suc, ◌≤◌, ◌+◌, ◌<◌, ◌≡◌, refl, ap, subst, sym, true, [], length, ◌⊎◌, inl, inr, arith,
}
use linux_dev_note.Pipe.{
  Parent, Child, hello, pipe_text, System, Step, Reach, forked, start, later, first, second,
  closing, waiting, ended, killed, born, reading, got, gone, child_reads, write_first, write_second,
  break_first, break_second, close_write, wait_child, child_close_write, child_read, child_end,
  child_exit,
}
use linux_dev_note.Pipe.Layer.{PipeCalls, IsPipeCalls}
use linux_dev_note.Pipe.Safety.{Inv, Reach-Inv, Holds, at_parent, at_child, room_at, sent}

-- the calls that a process still makes, at most
abbrev parent_left : Parent → ℕ
parent_left first = 4
parent_left second = 3
parent_left closing = 2
parent_left waiting = 1
parent_left _ = 0

abbrev child_left : Child → ℕ
child_left born = 3
child_left reading = 2
child_left (got out) = 1
child_left (gone out) = 0

abbrev pub left : (c : PipeCalls) → System c → ℕ
left c s = parent_left s.parent + child_left s.child

-- Every step uses up some of what is left.
Step-left : {c : PipeCalls} {s u : System c} → Step c s u → left c u < left c s
Step-left (write_first p q r e) = ground (arith)
Step-left (write_second p q r e) = ground (arith)
Step-left (break_first q r) = ground (arith)
Step-left (break_second q r) = ground (arith)
Step-left (close_write q) = ground (arith)
Step-left (wait_child out q r) = ground (arith)
Step-left (child_close_write e) = ground (arith)
Step-left (child_read e h) = ground (arith)
Step-left (child_end e h w) = ground (arith)
Step-left (child_exit out e) = ground (arith)

-- Both processes are through.
abbrev pub IsFinal : Parent → Child → Type 0
IsFinal ended (gone out) = Unit {0}
IsFinal killed (gone out) = Unit {0}
IsFinal _ _ = ⊥

-- A run of so many calls.
pub data Steps (c : PipeCalls) (p : c.Pipe) : ℕ → System c → Type 0 where
  none_yet : Steps c p 0 (forked c p)
  one_more : {n : ℕ} {s u : System c} → Steps c p n s → Step c s u → Steps c p (suc n) u

module _ (c : PipeCalls) (law : IsPipeCalls c) where
  abbrev Goes : System c → Type 0
  Goes s = IsFinal s.parent s.child ⊎ ((u : System c) × Step c s u)

  push_first : (s : System c) → s.parent ≡ first → child_reads s.child ≡ true → Inv c law s → Goes s
  push_first s q r v =
      let (p, e) = law.push_room s.pipe hello (omega (arith, room_at c law s q v)) in
      inr (_, write_first p q r e)

  push_second :
      (s : System c) → s.parent ≡ second → child_reads s.child ≡ true → Inv c law s → Goes s
  push_second s q r v =
      let (p, e) = law.push_room s.pipe pipe_text (omega (arith, room_at c law s q v)) in
      inr (_, write_second p q r e)

  read_some_bytes :
      (s : System c) (q : Parent)
      → s.parent ≡ q
      → s.child ≡ reading
      → 0 < length (sent q)
      → Inv c law s
      → Goes s
  read_some_bytes s q eq e h v = inr (
    _,
    child_read e
        (omega (arith, h, ap length (at_child c law s e v).0, ap (λ r. length (sent r)) eq)),
  )

  goes :
      (s : System c) (q : Parent) (ch : Child) → s.parent ≡ q → s.child ≡ ch → Inv c law s → Goes s
  goes s first born q e v = push_first s q (ap child_reads e) v
  goes s first reading q e v = push_first s q (ap child_reads e) v
  goes s first (got out) q e v =
      cc ((subst (λ ch. Holds ch first (c.contents s.pipe)) e (at_parent c law s q v)).1)
  goes s first (gone out) q e v =
      cc ((subst (λ ch. Holds ch first (c.contents s.pipe)) e (at_parent c law s q v)).1)
  goes s second born q e v = push_second s q (ap child_reads e) v
  goes s second reading q e v = push_second s q (ap child_reads e) v
  goes s second (got out) q e v = push_second s q (ap child_reads e) v
  goes s second (gone out) q e v = inr (_, break_second q (ap child_reads e))
  goes s closing ch q e v = inr (_, close_write q)
  goes s waiting born q e v = inr (_, child_close_write e)
  goes s waiting reading q e v = read_some_bytes s waiting q e (omega arith) v
  goes s waiting (got out) q e v = inr (_, child_exit out e)
  goes s waiting (gone out) q e v = inr (_, wait_child out q e)
  goes s ended born q e v = inr (_, child_close_write e)
  goes s ended reading q e v = read_some_bytes s ended q e (omega arith) v
  goes s ended (got out) q e v = inr (_, child_exit out e)
  goes s ended (gone out) q e v =
      inl (subst (λ r. IsFinal r s.child) (sym q) (subst (IsFinal ended) (sym e) tt))
  goes s killed born q e v = inr (_, child_close_write e)
  goes s killed reading q e v = read_some_bytes s killed q e (omega arith) v
  goes s killed (got out) q e v = inr (_, child_exit out e)
  goes s killed (gone out) q e v =
      inl (subst (λ r. IsFinal r s.child) (sym q) (subst (IsFinal killed) (sym e) tt))

  -- `n` calls from an empty pipe use up as much of the seven that there are.
  Steps-left :
      {p : c.Pipe} {n : ℕ} {s : System c} → Steps c p n s → (n + left c s ≤ 7) × Reach c p s
  Steps-left none_yet = (omega arith, start)
  Steps-left (one_more r st) =
      let (h, reach) = Steps-left r in (omega (arith, Step-left st), later reach st)

  -- Where the pipe keeps the laws of pipe(7) and starts empty, and in every order of the two
  -- processes' calls: no run has more than seven of them, and each run can go on or has brought
  -- both processes to their ends, so neither waits for the other without end.
  pub progress :
      {p : c.Pipe} {n : ℕ} {s : System c}
      → c.contents p ≡ []
      → Steps c p n s
      → (n ≤ 7) × (IsFinal s.parent s.child ⊎ ((u : System c) × Step c s u))
  progress {s = s} e r =
      let (h, reach) = Steps-left r in
      (omega arith, goes s s.parent s.child refl refl (Reach-Inv c law e reach))
