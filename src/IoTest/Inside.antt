-- ===== src/IoTest/Inside.antt =====
-- One writer and one reader of IoTest/Mixed.antt: the index of the writer stays inside the array.
use linux_dev_note.Common.{
  ℕ, zero, suc, ◌+◌, ◌-◌, ◌%◌, ◌^◌, ◌≤◌, ◌<◌, ◌≡◌, refl, ◌∙◌, Bool, false, some, none, arith,
  length, length-set, leb, subst,
}
use linux_dev_note.IoTest.{Io}
use linux_dev_note.IoTest.Calls.{
  Call, Pc, testing, copying, copied, returned, chosen, extended, moved_on, empty, choose, copy,
}
use linux_dev_note.IoTest.Calls as Calls
use linux_dev_note.IoTest.Mixed.{
  WriterPc, starting, at_test, storing, counting, behind_loop, written, WriterStep, start, enter,
  leave, store, fault, count, finish, System, Step, writer_moves, reader_moves, again, Run, here,
  further, fresh,
}

-- whether the writer is about to store outside the array
abbrev pub misses : WriterPc → Io → Bool
misses (storing i) d = leb (length d.byte) d.buff_len
misses _ d = false

module _ (capacity size : ℕ) (small : capacity < 2 ^ 31) where
  -- The globals, by where the writer stands.
  abbrev WriterOk : WriterPc → Io → Type 0
  WriterOk starting d = (d.buff_len ≤ d.buff_pos) × (d.buff_pos + size ≤ capacity)
  WriterOk (at_test i) d = (d.buff_len ≤ capacity) × (d.buff_pos + size ≤ capacity)
  WriterOk (storing i) d = (d.buff_len < capacity) × (d.buff_pos + size ≤ capacity)
  WriterOk (counting i) d = (d.buff_len < capacity) × (d.buff_pos + size ≤ capacity)
  WriterOk behind_loop d = (d.buff_len ≤ capacity) × (d.buff_pos ≤ capacity)
  WriterOk (written r) d = (d.buff_len ≤ d.buff_pos) × (d.buff_pos ≤ capacity)

  -- What the reader has taken from `buff_len` is still there.
  abbrev ReaderOk : Pc → ℕ → Type 0
  ReaderOk (copying k) len = k ≤ len
  ReaderOk (copied k out) len = k ≤ len
  ReaderOk _ len = Unit {0}

  WriterOk-small : (q : WriterPc) (d : Io) → WriterOk q d → d.buff_len < 2 ^ 31
  WriterOk-small starting d v = omega (arith, v.0, v.1)
  WriterOk-small (at_test i) d v = omega (arith, v.0)
  WriterOk-small (storing i) d v = omega (arith, v.0)
  WriterOk-small (counting i) d v = omega (arith, v.0)
  WriterOk-small behind_loop d v = omega (arith, v.0)
  WriterOk-small (written r) d v = omega (arith, v.0, v.1)

  -- A reader takes off some of `buff_len`.
  WriterOk-less :
      (q : WriterPc) (d : Io) (len postion : ℕ)
      → len ≤ d.buff_len
      → WriterOk q d
      → WriterOk q (record d { postion = postion; buff_len = len })
  WriterOk-less starting d len p h v = (omega (arith, v.0), v.1)
  WriterOk-less (at_test i) d len p h v = (omega (arith, v.0), v.1)
  WriterOk-less (storing i) d len p h v = (omega (arith, v.0), v.1)
  WriterOk-less (counting i) d len p h v = (omega (arith, v.0), v.1)
  WriterOk-less behind_loop d len p h v = (omega (arith, v.0), v.1)
  WriterOk-less (written r) d len p h v = (omega (arith, v.0), v.1)

  -- A reader that finds nothing sets the positions back.
  WriterOk-reset :
      (q : WriterPc) (d : Io)
      → d.buff_len ≡ 0
      → WriterOk q d
      → WriterOk q (record d { postion = 0; buff_pos = 0 })
  WriterOk-reset starting d e v = (omega (arith, e), omega (arith, v.1))
  WriterOk-reset (at_test i) d e v = (v.0, omega (arith, v.1))
  WriterOk-reset (storing i) d e v = (v.0, omega (arith, v.1))
  WriterOk-reset (counting i) d e v = (v.0, omega (arith, v.1))
  WriterOk-reset behind_loop d e v = (v.0, omega arith)
  WriterOk-reset (written r) d e v = (omega (arith, e), omega arith)

  WriterOk-misses :
      (q : WriterPc) (d : Io) → length d.byte ≡ capacity → WriterOk q d → misses q d ≡ false
  WriterOk-misses starting d e v = refl
  WriterOk-misses (at_test i) d e v = refl
  WriterOk-misses (storing i) d e v = ground (arith, v.0)
  WriterOk-misses (counting i) d e v = refl
  WriterOk-misses behind_loop d e v = refl
  WriterOk-misses (written r) d e v = refl

  chosen-le : (d : Io) (n k : ℕ) → d.buff_len < 2 ^ 31 → chosen d n ≡ some k → k ≤ d.buff_len
  chosen-le d n k h e = ground arith

  chosen-none : (d : Io) (n : ℕ) → d.buff_len < 2 ^ 31 → chosen d n ≡ none → d.buff_len ≡ 0
  chosen-none d n h e = ground arith

  ReaderOk-le : (r : Pc) (k len : ℕ) → k ≤ len → ReaderOk r k → ReaderOk r len
  ReaderOk-le testing k len h v = v
  ReaderOk-le (copying j) k len h v = omega arith
  ReaderOk-le (copied j out) k len h v = omega arith
  ReaderOk-le (returned r out) k len h v = v

  module _ (w : Call) (whole : w.size ≡ size) where
    -- What a step of the writer keeps; it takes nothing off `buff_len`.
    record Kept (d : Io) (q : WriterPc) (d' : Io) : Type 0 where
      ok : WriterOk q d'
      full : length d'.byte ≡ length d.byte
      grows : d.buff_len ≤ d'.buff_len

    WriterStep-Kept :
        {d d' : Io} {q q' : WriterPc} → WriterStep w d q d' q' → WriterOk q d → Kept d q' d'
    WriterStep-Kept start v = record { ok = (omega (arith, v.1), v.1); full = refl; grows = v.0 }
    WriterStep-Kept {d} (enter i h) v = record {
      ok = (ground (arith, v.0, v.1), v.1);
      full = refl;
      grows = omega arith;
    }
    WriterStep-Kept (leave i h) v = record {
      ok = (v.0, omega (arith, v.1));
      full = refl;
      grows = omega arith;
    }
    WriterStep-Kept {d} (store i b lt e) v = record {
      ok = v;
      full = length-set d.byte d.buff_len b;
      grows = omega arith;
    }
    WriterStep-Kept {d} (fault i lt e) v = record {
      ok = (omega (arith, v.0), omega (arith, v.1));
      full = length-set d.byte d.buff_len _;
      grows = omega arith;
    }
    WriterStep-Kept (count i) v = record {
      ok = (omega (arith, v.0), v.1);
      full = refl;
      grows = omega (arith, v.0);
    }
    WriterStep-Kept finish v = record { ok = (omega arith, v.0); full = refl; grows = omega arith }

    record Inv (s : System) : Type 0 where
      ok : WriterOk s.writer s.dev
      reader : ReaderOk (s.readers 0) s.dev.buff_len
      full : length s.dev.byte ≡ capacity

    Reader-Inv :
        (q : WriterPc) (call : ℕ → Call) (s u : Calls.System)
        → Calls.Step 1 call s u
        → Inv (record { dev = s.dev; writer = q; readers = s.pc })
        → Inv (record { dev = u.dev; writer = q; readers = u.pc })
    Reader-Inv q call s u (empty zero lt at e) v = record {
      ok = WriterOk-reset q s.dev (chosen-none s.dev _ (WriterOk-small q s.dev v.ok) e) v.ok;
      reader = tt;
      full = v.full;
    }
    Reader-Inv q call s u (choose zero k lt at e) v = record {
      ok = v.ok;
      reader = chosen-le s.dev _ k (WriterOk-small q s.dev v.ok) e;
      full = v.full;
    }
    Reader-Inv q call s u (copy zero k lt at room c) v = record {
      ok = v.ok;
      reader = subst (λ r. ReaderOk r s.dev.buff_len) at v.reader;
      full = v.full;
    }
    Reader-Inv q call s u (Calls.fault zero k lt at room c) v = record {
      ok = v.ok;
      reader = tt;
      full = v.full;
    }
    Reader-Inv q call s u (Calls.finish zero k out lt at) v =
        let h : k ≤ s.dev.buff_len = subst (λ r. ReaderOk r s.dev.buff_len) at v.reader in
        let top = WriterOk-small q s.dev v.ok in
        record {
          ok =
              WriterOk-less q s.dev ((s.dev.buff_len + (2 ^ 32 - k % 2 ^ 32)) % 2 ^ 32) _
                (omega arith) v.ok;
          reader = tt;
          full = v.full;
        }
    Reader-Inv q call s u (empty (suc t) lt at e) v = absurd (omega arith)
    Reader-Inv q call s u (choose (suc t) k lt at e) v = absurd (omega arith)
    Reader-Inv q call s u (copy (suc t) k lt at room c) v = absurd (omega arith)
    Reader-Inv q call s u (Calls.fault (suc t) k lt at room c) v = absurd (omega arith)
    Reader-Inv q call s u (Calls.finish (suc t) k out lt at) v = absurd (omega arith)

    Step-Inv : (call : ℕ → Call) {s u : System} → Step 1 w call s u → Inv s → Inv u
    Step-Inv call {s} (writer_moves q q' d e st) v =
        let kept = WriterStep-Kept st (subst (λ x. WriterOk x s.dev) e v.ok) in
        record {
          ok = kept.ok;
          reader = ReaderOk-le (s.readers 0) s.dev.buff_len d.buff_len kept.grows v.reader;
          full = kept.full ∙ v.full;
        }
    Step-Inv call {s} (reader_moves u st) v = Reader-Inv s.writer call _ u st v
    Step-Inv call (again zero r out lt e) v = record { ok = v.ok; reader = tt; full = v.full }
    Step-Inv call (again (suc t) r out lt e) v = absurd (omega arith)

    Run-Inv :
        (call : ℕ → Call) (dev : Io) {s : System}
        → length dev.byte ≡ capacity
        → WriterOk starting dev
        → Run 1 w call (fresh dev) s
        → Inv s
    Run-Inv call dev full v here = record { ok = v; reader = tt; full = full }
    Run-Inv call dev full v (further r st) = Step-Inv call st (Run-Inv call dev full v r)

-- One writer and one reader, which may call again and again, interleaved in any order, on a device whose
-- `buff_len` is at most `buff_pos` and whose array, of less than 2^31 bytes, has room for the write from
-- there on: in every reachable state the writer is not about to store outside the array, neither behind
-- its end nor, where the reader has taken bytes off `buff_len`, before its start.
pub one_reader_inside :
    (w : Call) (call : ℕ → Call) (dev : Io) (s : System)
    → dev.buff_len ≤ dev.buff_pos
    → dev.buff_pos + w.size ≤ length dev.byte
    → length dev.byte < 2 ^ 31
    → Run 1 w call (fresh dev) s
    → misses s.writer s.dev ≡ false
one_reader_inside w call dev s low room small r =
    let v = Run-Inv (length dev.byte) w.size small w refl call dev refl (low, room) r in
    WriterOk-misses (length dev.byte) w.size small s.writer s.dev v.full v.ok
