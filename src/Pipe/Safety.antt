-- ===== src/Pipe/Safety.antt =====
-- What the child of 01-ProcessCtrl/pipe_rw.c can print.
use linux_dev_note.Common.{
  ℕ, ◌≡◌, ◌≢◌, ◌<◌, refl, ap, sym, ◌∙◌, Bool, true, false, List, [], ◌++◌, some, length, ◌⊎◌, inl,
  inr, arith, take, subst, ◌+◌, ◌≤◌, length-append, length-drop,
}
use linux_dev_note.Common.Bytes.{blit}
use linux_dev_note.Common.CString.{c_string}
use linux_dev_note.Pipe.{
  Parent, Child, child_reads, parent_writes, write_first, write_second, break_first, break_second,
  close_write, wait_child, child_close_write, child_read, child_end, child_exit, start, later,
  hello, pipe_text, printed, System, Step, Reach, first, second, closing, waiting, ended, killed,
  born, reading, got, gone,
}
use linux_dev_note.Pipe.Layer.{PipeCalls, IsPipeCalls}

-- the bytes that the parent has written
abbrev pub sent : Parent → List ℕ
sent first = []
sent second = hello
sent killed = hello
sent _ = hello ++ pipe_text

-- What the child can read.
abbrev pub IsOut : List ℕ → Type 0
IsOut out = (out ≡ hello) ⊎ (out ≡ hello ++ pipe_text)

abbrev alive : Parent → Bool
alive killed = false
alive _ = true

abbrev pub started : Parent → Bool
started first = false
started _ = true

-- The bytes in the pipe, by where the two processes stand.
abbrev pub Holds : Child → Parent → List ℕ → Type 0
Holds born q l = (l ≡ sent q) × (alive q ≡ true)
Holds reading q l = (l ≡ sent q) × (alive q ≡ true)
Holds (got out) q l = IsOut out × (started q ≡ true)
Holds (gone out) q l = IsOut out × (started q ≡ true)

read-IsOut :
    (q : Parent) (l : List ℕ)
    → l ≡ sent q
    → alive q ≡ true
    → 0 < length l
    → IsOut (take 100 l) × (started q ≡ true)
read-IsOut first l e a h = absurd (omega (arith, ap length e))
read-IsOut second l e a h = (inl (ap (take 100) e), refl)
read-IsOut killed l e a h = absurd (cc)
read-IsOut closing l e a h = (inr (ap (take 100) e), refl)
read-IsOut waiting l e a h = (inr (ap (take 100) e), refl)
read-IsOut ended l e a h = (inr (ap (take 100) e), refl)

Holds-first : (ch : Child) (l l' : List ℕ) → Holds ch first l → l' ≡ l ++ hello → Holds ch second l'
Holds-first born l l' h e = (e ∙ ap (λ m. m ++ hello) h.0, refl)
Holds-first reading l l' h e = (e ∙ ap (λ m. m ++ hello) h.0, refl)
Holds-first (got out) l l' h e = (h.0, refl)
Holds-first (gone out) l l' h e = (h.0, refl)

Holds-second :
    (ch : Child) (l l' : List ℕ) → Holds ch second l → l' ≡ l ++ pipe_text → Holds ch closing l'
Holds-second born l l' h e = (e ∙ ap (λ m. m ++ pipe_text) h.0, refl)
Holds-second reading l l' h e = (e ∙ ap (λ m. m ++ pipe_text) h.0, refl)
Holds-second (got out) l l' h e = (h.0, refl)
Holds-second (gone out) l l' h e = (h.0, refl)

Holds-killed :
    (ch : Child) (q : Parent) (l : List ℕ)
    → child_reads ch ≡ false
    → Holds ch q l
    → Holds ch killed l
Holds-killed born q l r h = absurd (cc)
Holds-killed reading q l r h = absurd (cc)
Holds-killed (got out) q l r h = absurd (cc)
Holds-killed (gone out) q l r h = (h.0, refl)

-- The parent goes on and writes no more.
Holds-on :
    (ch : Child) (q q' : Parent) (l : List ℕ)
    → sent q ≡ sent q'
    → alive q' ≡ true
    → started q' ≡ true
    → Holds ch q l
    → Holds ch q' l
Holds-on born q q' l e a b h = (h.0 ∙ e, a)
Holds-on reading q q' l e a b h = (h.0 ∙ e, a)
Holds-on (got out) q q' l e a b h = (h.0, b)
Holds-on (gone out) q q' l e a b h = (h.0, b)

-- An end of file comes only behind all that was written, so the child has read something.
sent_nonempty : (q : Parent) → alive q ≡ true → parent_writes q ≡ false → sent q ≢ []
sent_nonempty first a b e = cc
sent_nonempty second a b e = cc
sent_nonempty closing a b e = cc
sent_nonempty killed a b e = cc
sent_nonempty waiting a b e = cc
sent_nonempty ended a b e = cc

-- What the child prints for what it can read.
IsOut-printed :
    (out : List ℕ)
    → IsOut out
    → (printed out ≡ some (5, some hello)) ⊎ (printed out ≡ some (10, some (hello ++ pipe_text)))
unfolding printed c_string blit
IsOut-printed out h = elim h [ inl e ↦ inl (ap printed e) | inr e ↦ inr (ap printed e) ]

module _ (c : PipeCalls) (law : IsPipeCalls c) where
  pub record Inv (s : System c) : Type 0 where
    pub holds : Holds s.child s.parent (c.contents s.pipe)
    pub room : length (c.contents s.pipe) ≤ length (sent s.parent)

  pub at_parent :
      (s : System c) {q : Parent} → s.parent ≡ q → Inv s → Holds s.child q (c.contents s.pipe)
  at_parent s e v = subst (λ q. Holds s.child q (c.contents s.pipe)) e v.holds

  pub at_child :
      (s : System c) {ch : Child} → s.child ≡ ch → Inv s → Holds ch s.parent (c.contents s.pipe)
  at_child s e v = subst (λ ch. Holds ch s.parent (c.contents s.pipe)) e v.holds

  pub room_at :
      (s : System c) {q : Parent}
      → s.parent ≡ q
      → Inv s
      → length (c.contents s.pipe) ≤ length (sent q)
  room_at s e v = subst (λ q. length (c.contents s.pipe) ≤ length (sent q)) e v.room

  length-push :
      (p p' : c.Pipe) (xs : List ℕ)
      → c.push p xs ≡ some p'
      → length (c.contents p') ≡ length (c.contents p) + length xs
  length-push p p' xs e = ap length (law.push_whole p p' xs e) ∙ length-append (c.contents p) xs

  Step-Inv : {s u : System c} → Step c s u → Inv s → Inv u
  Step-Inv {s} (write_first p q r e) v = record {
    holds = Holds-first s.child _ _ (at_parent s q v) (law.push_whole s.pipe p hello e);
    room = omega (arith, room_at s q v, length-push s.pipe p hello e);
  }
  Step-Inv {s} (write_second p q r e) v = record {
    holds = Holds-second s.child _ _ (at_parent s q v) (law.push_whole s.pipe p pipe_text e);
    room = omega (arith, room_at s q v, length-push s.pipe p pipe_text e);
  }
  Step-Inv {s} (break_first q r) v = record {
    holds = Holds-killed s.child _ _ r v.holds;
    room = omega (arith, room_at s q v);
  }
  Step-Inv {s} (break_second q r) v = record {
    holds = Holds-killed s.child _ _ r v.holds;
    room = room_at s q v;
  }
  Step-Inv {s} (close_write q) v = record {
    holds = Holds-on s.child closing waiting _ refl refl refl (at_parent s q v);
    room = room_at s q v;
  }
  Step-Inv {s} (wait_child out q r) v = record {
    holds = Holds-on s.child waiting ended _ refl refl refl (at_parent s q v);
    room = room_at s q v;
  }
  Step-Inv {s} (child_close_write e) v = record { holds = at_child s e v; room = v.room }
  Step-Inv {s} (child_read e h) v =
      let (l, a) = at_child s e v in
      record {
        holds =
            subst (λ out. IsOut out × (started s.parent ≡ true)) (sym (law.pull_out s.pipe 100))
              (read-IsOut s.parent (c.contents s.pipe) l a h);
        room = omega (
          arith,
          v.room,
          ap length (law.pull_rest s.pipe 100),
          length-drop 100 (c.contents s.pipe),
        );
      }
  Step-Inv {s} (child_end e h w) v =
      let (l, a) = at_child s e v in absurd (sent_nonempty s.parent a w (sym l ∙ h))
  Step-Inv {s} (child_exit out e) v = record { holds = at_child s e v; room = v.room }

  pub Reach-Inv : {p : c.Pipe} {s : System c} → c.contents p ≡ [] → Reach c p s → Inv s
  Reach-Inv e start = record { holds = (e, refl); room = omega (arith, ap length e) }
  Reach-Inv e (later r st) = Step-Inv st (Reach-Inv e r)

  -- Where the pipe keeps the laws of pipe(7) and starts empty, and in every order of the two
  -- processes' calls: a child that has read prints either 5 and "Hello" or 10 and "Hello Pipe".
  pub child-printed :
      {p : c.Pipe} {s : System c} (out : List ℕ)
      → c.contents p ≡ []
      → Reach c p s
      → s.child ≡ got out
      → (printed out ≡ some (5, some hello)) ⊎ (printed out ≡ some (10, some (hello ++ pipe_text)))
  child-printed {p} {s} out e r g = IsOut-printed out (at_child s g (Reach-Inv e r)).0
