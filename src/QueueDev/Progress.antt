-- ===== src/QueueDev/Progress.antt =====
-- A reader of 04-queue_wait/queue_wait_dev.c can be served: from wherever the calls stand, a write
-- and the reader's own steps bring it to its end.
use linux_dev_note.Common.{
  ℕ, suc, ◌≤◌, ◌<◌, ◌≡◌, refl, ap, ◌∙◌, Bool, true, false, List, Option, none, some, arith, length,
  Option-cases, inl, inr, update,
}
use linux_dev_note.Common.Int.{pos}
use linux_dev_note.Common.Bytes.{blit, slice, slice-blit}
use linux_dev_note.UserSpace.{UserBuffer, holding}
use linux_dev_note.CopyLoop.{store_loop, length-store_loop}
use linux_dev_note.QueueDev.{Dev, Reply, consume, attempt, write}
use linux_dev_note.QueueDev.Transfer.{loaded, write-loaded, consume_lem}
use linux_dev_note.QueueDev.Calls.{
  Call, Pc, testing, asleep, passed, returned, System, Step, writer, pass, fail, sleep, wake,
  taking, Reach, start, later,
}

length-write :
    (buf : UserBuffer) (dev : Dev) (size : ℕ) (r : Reply)
    → write buf dev size ≡ some r
    → length r.dev.byte ≡ length dev.byte
unfolding write
length-write buf dev size r e = elim (Option-cases (store_loop buf 0 size dev.byte 0)) [
  | inl f ↦ let nothing = rw (write, f) at e in ground arith
  | inr (q, f) ↦ ground (arith, length-store_loop buf 0 size dev.byte 0 q f)
]

length-consume :
    (buf : UserBuffer) (dev : Dev) (size : ℕ) (r : Reply)
    → consume buf dev size ≡ some r
    → length r.dev.byte ≡ length dev.byte
unfolding consume
length-consume buf dev size r e = ground arith

-- whether a call of example_read has returned
abbrev pub has_returned : Pc → Bool
has_returned (returned r out) = true
has_returned _ = false

module _ (n : ℕ) (call : ℕ → Call) where
  Step-length : {s u : System} → Step n call s u → length u.dev.byte ≡ length s.dev.byte
  Step-length {s} (writer buf size r e) = length-write buf s.dev size r e
  Step-length (pass t lt e a) = refl
  Step-length (fail t x lt e a) = refl
  Step-length (sleep t lt e a) = refl
  Step-length (wake t lt e) = refl
  Step-length {s} (taking t r lt e c) = length-consume (call t).buf s.dev (call t).size r c

  Reach-length : {dev : Dev} {s : System} → Reach n call dev s → length s.dev.byte ≡ length dev.byte
  Reach-length start = refl
  Reach-length (later r st) = Step-length st ∙ Reach-length r

  -- the reader that a step is of; `none` for a writer's
  abbrev pub reader_of : {s u : System} → Step n call s u → Option ℕ
  reader_of (writer buf size r e) = none
  reader_of (pass t lt e a) = some t
  reader_of (fail t x lt e a) = some t
  reader_of (sleep t lt e a) = some t
  reader_of (wake t lt e) = some t
  reader_of (taking t r lt e c) = some t

  -- A run in which only the reader `t` moves.
  pub data Run (t : ℕ) (s : System) : System → Type 0 where
    here : Run t s s
    further :
        {u w : System} → Run t s u → (st : Step n call u w) → reader_of st ≡ some t → Run t s w

  -- What a write leaves, of which the device is `dev` then.
  abbrev pub behind_write : System → Dev → System
  behind_write s dev = record s { dev = dev; writes = suc s.writes }

  module _ (from : System) (xs : List ℕ) (t : ℕ) (lt : t < n)
      (fits : length xs ≤ length from.dev.byte) (whole : (call t).size ≡ length xs)
      (ok : (call t).buf.uncopied (length xs) ≡ 0) where
    abbrev written : System
    written = behind_write from (loaded from.dev xs)

    -- The reader has the bytes.
    abbrev Served : Type 0
    Served = (w : System) × Run t written w × (w.pc t ≡ returned (pos (length xs)) xs)

    -- From a device that holds `xs`, and the reader behind the loop.
    take_up : (s : System) → Run t written s → s.dev ≡ loaded from.dev xs → s.pc t ≡ passed → Served
    take_up s run holds at =
        let all_of_it = consume_lem (call t).buf from.dev xs (length xs) fits ok in
        let r : Reply = record {
          dev = record { byte = blit from.dev.byte 0 xs; buff_len = 0; havedata = false };
          ret = pos (length xs);
          out = slice (blit from.dev.byte 0 xs) 0 (length xs);
        } in
        let took : consume (call t).buf s.dev (call t).size ≡ some r =
          rw (holds, whole) all_of_it in
        let bytes_eq = slice-blit from.dev.byte 0 xs (omega arith) in
        (
          record s { dev = r.dev; pc = update s.pc t (returned r.ret r.out); taken = suc s.taken },
          further run (taking t r lt at took) refl,
          ground (arith, ap (returned (pos (length xs))) bytes_eq),
        )

    serve_testing :
        (s : System) → Run t written s → s.dev ≡ loaded from.dev xs → s.pc t ≡ testing → Served
    serve_testing s run holds at =
        take_up (record s { pc = update s.pc t passed })
          (further run
            (pass t lt at (
              ap (attempt (call t).nonblock) holds
              ∙ (write-loaded from.dev xs (call t).nonblock fits).1))
            refl)
          holds (ground arith)

    serve_from :
        (s : System) (q : Pc)
        → Run t written s
        → s.dev ≡ loaded from.dev xs
        → s.pc t ≡ q
        → has_returned q ≡ false
        → Served
    serve_from s testing run holds at h = serve_testing s run holds at
    serve_from s asleep run holds at h =
        serve_testing (record s { pc = update s.pc t testing }) (further run (wake t lt at) refl)
          holds (ground arith)
    serve_from s passed run holds at h = take_up s run holds at
    serve_from s (returned r out) run holds at h = ground arith

-- From every reachable state, whatever the calls are about: a reader that has not returned, whose
-- buffer does not fault, is brought to return `xs` and its length by one write of `xs`, where the
-- reader asks for as many bytes and the array holds them, and then by steps of its own alone.
pub can_be_served :
    (n : ℕ) (call : ℕ → Call) (dev : Dev) (s : System) (xs : List ℕ) (t : ℕ)
    → Reach n call dev s
    → t < n
    → has_returned (s.pc t) ≡ false
    → length xs ≤ length dev.byte
    → (call t).size ≡ length xs
    → (call t).buf.uncopied (length xs) ≡ 0
    → (r : Reply) × (w : System) × (write (holding xs) s.dev (length xs) ≡ some r)
      × Run n call t (behind_write n call s r.dev) w
      × (w.pc t ≡ returned (pos (length xs)) xs)
can_be_served n call dev s xs t reach lt waits fits whole ok =
    let room = Reach-length n call reach in
    let fits' : length xs ≤ length s.dev.byte = omega arith in
    let (w, run, got) =
      serve_from n call s xs t lt fits' whole ok (behind_write n call s (loaded s.dev xs)) (s.pc t)
        here refl refl waits in
    (_, w, (write-loaded s.dev xs (call t).nonblock fits').0, run, got)
