-- ===== src/BlockDev/Serve.antt =====
-- One request to the RAM disk of 12-block_device/block_device.c: what its loop transfers, and the
-- fuel that the loop takes.
use linux_dev_note.Common.{
  ℕ, zero, suc, ◌+◌, ◌-◌, ◌*◌, ◌≤◌, ◌<◌, ◌≡◌, ap, ap₂, sym, ◌∙◌, Bool, true, List, ◌++◌, some, ltb,
  arith, length, take, drop, append_assoc, Bool-cases, inl, inr, take-append-drop, length-take,
  take-length,
}
use linux_dev_note.Common.Bytes.{slice, blit, slice-append, length-slice, blit-append}
use linux_dev_note.BlockDev.{disk_bytes, offset, read_round, read_loop, write_loop}
use linux_dev_note.BlockDev.Layer.{BlkLayer, IsBlkLayer}

module _ (b : BlkLayer) (law : IsBlkLayer b) where
  open b use {
    Req, rq_pos, rq_bytes, rq_cur_bytes, rq_data_dir, bio_data, fill, end_request_cur, payload,
    received,
  }
  open law use {
    cur_le, cur_pos, more, bytes_next, pos_next, length-payload, bio_data_eq, payload_next,
    pos_fill, bytes_fill, cur_fill, received_next,
  }

  -- A request inside the disk.
  abbrev pub Fits : Req → Type 0
  Fits r = rq_pos r * 512 + rq_bytes r ≤ disk_bytes

  offset-eq : (r : Req) → Fits r → offset b r ≡ rq_pos r * 512
  unfolding offset
  offset-eq r h = omega arith

  -- What one round of the loop of a read leaves, for the bytes `xs` copied into the buffer.
  record Round (r : Req) (xs : List ℕ) (more' : Bool) (r' : Req) : Type 0 where
    tests : more' ≡ ltb (rq_cur_bytes r) (rq_bytes r)
    left : rq_bytes r' ≡ rq_bytes r - rq_cur_bytes r
    moved : more' ≡ true → rq_pos r' * 512 ≡ rq_pos r * 512 + rq_cur_bytes r
    got : received r' ≡ received r ++ xs

  chunk : List ℕ → Req → List ℕ
  chunk disk r = slice disk (rq_pos r * 512) (rq_cur_bytes r)

  read_round-Round :
      (disk : List ℕ) (r : Req)
      → length disk ≡ disk_bytes
      → Fits r
      → Round r (chunk disk r) (read_round b disk r).0 (read_round b disk r).1
  unfolding read_round chunk
  read_round-Round disk r full fit =
      rw (read_round, offset-eq r fit)
        (record {
          tests = rw (cur_fill r xs, bytes_fill r xs) at (more (fill r xs));
          left = rw (cur_fill r xs, bytes_fill r xs) at (bytes_next (fill r xs));
          moved = λ t. rw (cur_fill r xs, pos_fill r xs) at (pos_next (fill r xs) t);
          got =
              received_next r xs
                (length-slice disk (rq_pos r * 512) (rq_cur_bytes r) (omega (arith, cur_le r)));
        })
    where
      xs : List ℕ
      xs = slice disk (rq_pos r * 512) (rq_cur_bytes r)

  -- The rest of a slice behind its first chunk.
  chunk-append :
      (disk : List ℕ) (r : Req) (q n : ℕ)
      → q ≡ rq_pos r * 512 + rq_cur_bytes r
      → rq_cur_bytes r + n ≡ rq_bytes r
      → chunk disk r ++ slice disk q n ≡ slice disk (rq_pos r * 512) (rq_bytes r)
  unfolding chunk
  chunk-append disk r q n e h =
      ap (λ p. chunk disk r ++ slice disk p n) e
      ∙ sym (slice-append disk (rq_pos r * 512) (rq_cur_bytes r) n)
      ∙ ap (slice disk (rq_pos r * 512)) h

  -- The loop of a read ends, and has handed over the bytes of the disk that the request names.
  pub read_loop_lem :
      (fuel : ℕ) (disk : List ℕ) (r : Req)
      → length disk ≡ disk_bytes
      → Fits r
      → rq_bytes r < fuel
      → (r' : Req) × (read_loop b fuel disk r ≡ some r')
        × (rq_bytes r' ≡ 0)
        × (received r' ≡ received r ++ slice disk (rq_pos r * 512) (rq_bytes r))
  unfolding read_loop chunk
  read_loop_lem zero disk r full fit h = absurd (omega arith)
  read_loop_lem (suc fuel) disk r full fit h = elim (Bool-cases (read_round b disk r).0) [
    | inl e ↦
        let short : rq_cur_bytes r < rq_bytes r = ground (arith, round.tests) in
        let (r', run, done, got) =
          read_loop_lem fuel disk r1 full (omega (arith, round.moved e, round.left))
            (omega (arith, round.left, cur_pos r)) in
        (
          r',
          rw (e, read_loop) run,
          done,
          got
              ∙ ap (λ l. l ++ slice disk (rq_pos r1 * 512) (rq_bytes r1)) round.got
              ∙ append_assoc (received r) (chunk disk r) _
              ∙ ap (λ l. received r ++ l)
                  (chunk-append disk r (rq_pos r1 * 512) (rq_bytes r1) (round.moved e)
                    (omega (arith, round.left))),
        )
    | inr e ↦
        let all : rq_cur_bytes r ≡ rq_bytes r = ground (arith, round.tests, cur_le r) in
        (
          r1,
          rw (e, read_loop),
          omega (arith, round.left),
          round.got ∙ ap (λ n. received r ++ slice disk (rq_pos r * 512) n) all,
        )
  ]
    where
      r1 : Req
      r1 = (read_round b disk r).1

      round : Round r (chunk disk r) (read_round b disk r).0 r1
      round = read_round-Round disk r full fit

  -- The first chunk of a write, and then the rest of it.
  blit-chunks :
      (disk : List ℕ) (r : Req) (q : ℕ)
      → q ≡ rq_pos r * 512 + rq_cur_bytes r
      → blit (blit disk (rq_pos r * 512) (bio_data r)) q (drop (rq_cur_bytes r) (payload r))
        ≡ blit disk (rq_pos r * 512) (payload r)
  blit-chunks disk r q e =
      ap₂ (λ l k. blit (blit disk p l) k rest) (bio_data_eq r) (e ∙ omega (arith, long))
      ∙ sym (blit-append disk p first rest)
      ∙ ap (blit disk p) (take-append-drop (rq_cur_bytes r) (payload r))
    where
      p : ℕ
      p = rq_pos r * 512

      first : List ℕ
      first = take (rq_cur_bytes r) (payload r)

      rest : List ℕ
      rest = drop (rq_cur_bytes r) (payload r)

      long : length first ≡ rq_cur_bytes r
      long = omega (arith, length-take (rq_cur_bytes r) (payload r), length-payload r, cur_le r)

  -- The loop of a write ends, and has stored the data of the request where it names them.
  pub write_loop_lem :
      (fuel : ℕ) (disk : List ℕ) (r : Req)
      → Fits r
      → rq_bytes r < fuel
      → (r' : Req) × (write_loop b fuel disk r ≡ some (blit disk (rq_pos r * 512) (payload r), r'))
        × (rq_bytes r' ≡ 0)
  unfolding write_loop
  write_loop_lem zero disk r fit h = absurd (omega arith)
  write_loop_lem (suc fuel) disk r fit h = elim (Bool-cases (end_request_cur r).0) [
    | inl e ↦
        let short : rq_cur_bytes r < rq_bytes r = ground (arith, more r) in
        let (r', run, done) =
          write_loop_lem fuel disk' r1 (omega (arith, pos_next r e, bytes_next r))
            (omega (arith, bytes_next r, cur_pos r)) in
        (
          r',
          rw (e, write_loop, offset-eq r fit)
              (run
                ∙ ap (λ d. some (d, r'))
                    (ap (blit disk' (rq_pos r1 * 512)) (payload_next r)
                      ∙ blit-chunks disk r (rq_pos r1 * 512) (pos_next r e))),
          done,
        )
    | inr e ↦
        let all : rq_cur_bytes r ≡ rq_bytes r = ground (arith, more r, cur_le r) in
        (
          r1,
          rw (e, write_loop, offset-eq r fit)
              (ap (λ l. some (blit disk (rq_pos r * 512) l, r1))
                (bio_data_eq r
                  ∙ take-length (payload r) (rq_cur_bytes r) (omega (arith, length-payload r)))),
          omega (arith, bytes_next r),
        )
  ]
    where
      disk' : List ℕ
      disk' = blit disk (rq_pos r * 512) (bio_data r)

      r1 : Req
      r1 = (end_request_cur r).1
