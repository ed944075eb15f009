-- ===== src/BlockDev/Queue.antt =====
-- The whole request function of 12-block_device/block_device.c against a byte array that the
-- requests change one after another.
use linux_dev_note.Common.{
  ℕ, ◌+◌, ◌*◌, ◌^◌, ◌≤◌, ◌<◌, ◌≡◌, refl, ap, ap₂, sym, ◌∙◌, Bool, true, false, not, List, [], ◌∷◌,
  ◌++◌, some, leb, arith, length, if◌then◌else◌,
}
use linux_dev_note.Common.Bytes.{slice, blit, length-blit, slice-blit}
use linux_dev_note.BlockDev.{disk_bytes, offset, is_bad, serve, do_request}
use linux_dev_note.BlockDev.Layer.{BlkLayer, IsBlkLayer, Dir, read, write}
use linux_dev_note.BlockDev.Serve.{read_loop_lem, write_loop_lem}

module _ (b : BlkLayer) where
  open b use {Req, rq_pos, rq_bytes, rq_data_dir, end_request_cur, payload, received}

  -- whether a request ends inside the disk
  unfoldable pub fits : Req → Bool
  fits r = leb (rq_pos r * 512 + rq_bytes r) disk_bytes

  -- the disk after a request
  abbrev pub store : List ℕ → Req → List ℕ
  store disk r =
      if fits r
      then elim (rq_data_dir r) [ read ↦ disk | write ↦ blit disk (rq_pos r * 512) (payload r) ]
      else disk

  abbrev pub stores : List ℕ → List Req → List ℕ
  stores disk [] = disk
  stores disk (r ∷ rs) = stores (store disk r) rs

  -- A request inside the disk is completed, and a read has handed over the bytes that it names. Of
  -- one beyond the end the current buffer is ended, and nothing else.
  abbrev Answer : Bool → Dir → List ℕ → Req → Req → Type 0
  Answer true read disk r r' =
      (rq_bytes r' ≡ 0) × (received r' ≡ received r ++ slice disk (rq_pos r * 512) (rq_bytes r))
  Answer true write disk r r' = rq_bytes r' ≡ 0
  Answer false _ disk r r' = r' ≡ (end_request_cur r).1

  abbrev pub Answers : List ℕ → List Req → List Req → Type 0
  Answers disk [] [] = Unit {0}
  Answers disk [] (r' ∷ rs') = ⊥
  Answers disk (r ∷ rs) [] = ⊥
  Answers disk (r ∷ rs) (r' ∷ rs') =
      Answer (fits r) (rq_data_dir r) disk r r' × Answers (store disk r) rs rs'

  -- Requests whose end is a 64-bit number, each with fewer bytes than the fuel.
  abbrev pub Sane : ℕ → List Req → Type 0
  Sane fuel [] = Unit {0}
  Sane fuel (r ∷ rs) = (rq_pos r * 512 + rq_bytes r < 2 ^ 64) × (rq_bytes r < fuel) × Sane fuel rs

  is_bad-eq : (r : Req) → rq_pos r * 512 + rq_bytes r < 2 ^ 64 → is_bad b r ≡ not (fits r)
  unfolding is_bad offset fits
  is_bad-eq r h = ground arith

  length-store : (disk : List ℕ) (r : Req) → length (store disk r) ≡ length disk
  length-store disk r = ground (arith, length-blit disk (rq_pos r * 512) (payload r))

  module _ (law : IsBlkLayer b) where
    -- One request, by whether it fits and by its direction.
    serve_cases :
        (fuel : ℕ) (disk : List ℕ) (r : Req) (f : Bool) (d : Dir)
        → length disk ≡ disk_bytes
        → rq_pos r * 512 + rq_bytes r < 2 ^ 64
        → rq_bytes r < fuel
        → fits r ≡ f
        → rq_data_dir r ≡ d
        → (r' : Req) × (serve b fuel disk r ≡ some (store disk r, r')) × Answer f d disk r r'
    unfolding serve fits
    serve_cases fuel disk r false d full small h ef ed =
        ((end_request_cur r).1, rw (is_bad-eq r small, ef), refl)
    serve_cases fuel disk r true read full small h ef ed =
        let (r', run, done, got) = read_loop_lem b law fuel disk r full (ground arith) h in
        (r', rw (is_bad-eq r small, ef, ed, run), (done, got))
    serve_cases fuel disk r true write full small h ef ed =
        let (r', run, done) = write_loop_lem b law fuel disk r (ground arith) h in
        (r', rw (is_bad-eq r small, ef, ed, run), done)

    serve_lem :
        (fuel : ℕ) (disk : List ℕ) (r : Req)
        → length disk ≡ disk_bytes
        → rq_pos r * 512 + rq_bytes r < 2 ^ 64
        → rq_bytes r < fuel
        → (r' : Req) × (serve b fuel disk r ≡ some (store disk r, r'))
          × Answer (fits r) (rq_data_dir r) disk r r'
    serve_lem fuel disk r full small h =
        serve_cases fuel disk r (fits r) (rq_data_dir r) full small h refl refl

    do_request-cons :
        (fuel : ℕ) (disk disk' disk'' : List ℕ) (r r' : Req) (rs rs' : List Req)
        → serve b fuel disk r ≡ some (disk', r')
        → do_request b fuel disk' rs ≡ some (disk'', rs')
        → do_request b fuel disk (r ∷ rs) ≡ some (disk'', r' ∷ rs')
    unfolding do_request
    do_request-cons fuel disk disk' disk'' r r' rs rs' first rest = rw (do_request, first, rest)

    run_two :
        (fuel : ℕ) (disk disk' : List ℕ) (w r w' r' : Req)
        → serve b fuel disk w ≡ some (disk', w')
        → serve b fuel disk' r ≡ some (disk', r')
        → do_request b fuel disk (w ∷ r ∷ []) ≡ some (disk', w' ∷ r' ∷ [])
    unfolding do_request
    run_two fuel disk disk' w r w' r' first second =
        do_request-cons fuel disk disk' disk' w w' (r ∷ []) (r' ∷ []) first
          (do_request-cons fuel disk' disk' disk' r r' [] [] second refl)

    -- On a disk of its size, for every sequence of requests with ends below 2^64, and fuel above
    -- the bytes of each, the request function ends: the disk is what the requests that fit, in
    -- order, make of it, every request that fits is completed, a read with the bytes that the disk
    -- held at its turn, and a request beyond the end has only its current buffer ended.
    pub do_request_lem :
        (fuel : ℕ) (disk : List ℕ) (rs : List Req)
        → length disk ≡ disk_bytes
        → Sane fuel rs
        → (rs' : List Req) × (do_request b fuel disk rs ≡ some (stores disk rs, rs'))
          × Answers disk rs rs'
    unfolding do_request
    do_request_lem fuel disk [] full sane = ([], refl, tt)
    do_request_lem fuel disk (r ∷ rs) full sane =
        let (r', run, answer) = serve_lem fuel disk r full sane.0 sane.1 in
        let (rs', runs, answers) =
          do_request_lem fuel (store disk r) rs (length-store disk r ∙ full) sane.2 in
        (r' ∷ rs', do_request-cons fuel disk _ _ r r' rs rs' run runs, (answer, answers))

    stored :
        (disk : List ℕ) (w : Req)
        → fits w ≡ true
        → rq_data_dir w ≡ write
        → store disk w ≡ blit disk (rq_pos w * 512) (payload w)
    stored disk w f d = rw (f, d)

    kept : (disk : List ℕ) (r : Req) → fits r ≡ true → rq_data_dir r ≡ read → store disk r ≡ disk
    kept disk r f d = rw (f, d)

    read_back :
        (disk : List ℕ) (w r : Req)
        → length disk ≡ disk_bytes
        → rq_pos r ≡ rq_pos w
        → rq_bytes r ≡ rq_bytes w
        → rq_pos w * 512 + rq_bytes w ≤ disk_bytes
        → slice (blit disk (rq_pos w * 512) (payload w)) (rq_pos r * 512) (rq_bytes r) ≡ payload w
    read_back disk w r full same_pos same_len inside =
        ap₂ (λ p n. slice (blit disk (rq_pos w * 512) (payload w)) (p * 512) n) same_pos
          (same_len ∙ sym (law.length-payload w))
        ∙ slice-blit disk (rq_pos w * 512) (payload w) (omega (arith, law.length-payload w))

    -- On a disk of its size and with fuel above the bytes of each request, a write and then a read
    -- at the same place and of the same length inside the disk: the function ends, and the read
    -- hands over the data of the write.
    pub read_after_write :
        (fuel : ℕ) (disk : List ℕ) (w r : Req)
        → length disk ≡ disk_bytes
        → rq_data_dir w ≡ write
        → rq_data_dir r ≡ read
        → rq_pos r ≡ rq_pos w
        → rq_bytes r ≡ rq_bytes w
        → rq_pos w * 512 + rq_bytes w ≤ disk_bytes
        → rq_bytes w < fuel
        → (w' r' : Req) × (do_request b fuel disk (w ∷ r ∷ [])
            ≡ some (blit disk (rq_pos w * 512) (payload w), w' ∷ r' ∷ []))
          × (received r' ≡ received r ++ payload w)
    unfolding fits
    read_after_write fuel disk w r full dw dr same_pos same_len inside h =
        let ew : fits w ≡ true = ground arith in
        let er : fits r ≡ true = ground arith in
        let (w', run, done) = serve_cases fuel disk w true write full (omega arith) h ew dw in
        let (r', run', answer) =
          serve_cases fuel (blit disk (rq_pos w * 512) (payload w)) r true read
            (length-blit disk (rq_pos w * 512) (payload w) ∙ full) (omega arith) (omega arith) er
            dr in
        (
          w',
          r',
          run_two fuel disk _ w r w' r' (run ∙ ap (λ d. some (d, w')) (stored disk w ew dw))
              (run' ∙ ap (λ d. some (d, r')) (kept _ r er dr)),
          answer.1 ∙ ap (λ l. received r ++ l) (read_back disk w r full same_pos same_len inside),
        )
