-- ===== src/Thread/Lines.antt =====
-- How much of its output the thread of 01-ProcessCtrl/pthread.c gets to print.
use linux_dev_note.Common.{
  ℕ, zero, suc, ◌≡◌, ◌≤◌, refl, ap, sym, ◌∙◌, List, [], ◌∷◌, ◌++◌, get_elem?, some, take, arith,
}
use linux_dev_note.Common.Int.{pos}
use linux_dev_note.Thread.{
  Line, create, filled, sample_code, greeting, returned, Process, Step, made, not_made, greets,
  returns, prints, Reach, start, later,
}

take-suc :
    (ls : List Line) (n : ℕ) (l : Line)
    → get_elem? ls n ≡ some l
    → take (suc n) ls ≡ take n ls ++ l ∷ []
take-suc [] n l e = absurd (cc)
take-suc (x ∷ ls) zero l e = ap (λ y. y ∷ []) cc
take-suc (x ∷ ls) (suc n) l e = ap (λ r. x ∷ r) (take-suc ls n l e)

Step-out :
    {s u : Process}
    → Step s u
    → s.out ≡ take s.next (create filled)
    → u.out ≡ take u.next (create filled)
Step-out (made e) h = h
Step-out (not_made e) h = h
Step-out (greets e) h = h
Step-out (returns e) h = h
Step-out {s} (prints l r g) h = ap (λ o. o ++ l ∷ []) h ∙ sym (take-suc (create filled) s.next l g)

Reach-out : {s : Process} → Reach s → s.out ≡ take s.next (create filled)
Reach-out start = refl
Reach-out (later r st) = Step-out st (Reach-out r)

-- The thread has printed `k` lines, and `main` none.
early :
    (k : ℕ)
    → k ≤ 4
    → Reach (record { main = greeting; main_printed = 0; next = k; out = take k (create filled) })
unfolding create filled
early zero h = later start (made refl)
early (suc zero) h = later (early zero (omega arith)) (prints _ refl refl)
early (suc (suc zero)) h = later (early (suc zero) (omega arith)) (prints _ refl refl)
early (suc (suc (suc zero))) h = later (early (suc (suc zero)) (omega arith)) (prints _ refl refl)
early (suc (suc (suc (suc zero)))) h =
    later (early (suc (suc (suc zero))) (omega arith)) (prints _ refl refl)
early (suc (suc (suc (suc (suc k))))) h = absurd (omega arith)

-- In every order of the two threads' calls the thread has printed a front of its four lines: its number,
-- that of the process, 4 and "SampleCode"; and for each `k` up to four, `main` can return 0 when it has
-- printed just `k` of them.
pub out-front :
    (k : ℕ) {s : Process}
    → k ≤ 4
    → Reach s
    → (s.out
        ≡ take s.next
            (Line.thread_id ∷ Line.process_pid ∷ Line.menber_a 4 ∷ Line.menber_s sample_code ∷ []))
      × ((w : Process) × Reach w × (w.main ≡ returned (pos 0)) × (w.out ≡ take k (create filled)))
unfolding create filled
out-front k h r =
    (Reach-out r, (_, later (later (early k h) (greets refl)) (returns refl), refl, refl))
