-- ===== src/FileOps/EchoCat.antt =====
-- The commands that the opening comment of 03-fileOperate/fileOperate/RWTest/fileOperate_drv.c gives,
-- `echo "1234567" > /dev/IOTest` and `cat /dev/IOTest`, through the file layer: echo writes its text
-- once, cat reads with one size until it gets 0 or an error.
use linux_dev_note.Common.{
  ℕ, zero, suc, ◌+◌, ◌≤◌, ◌<◌, ◌≡◌, refl, sym, subst, ◌∙◌, true, false, List, [], ◌∷◌, ◌++◌, Option,
  none, some, arith, length, Bool-cases, Option-cases, inl, inr, append-nil, append_assoc,
  length-append,
}
use linux_dev_note.Common.Int.{ℤ, pos, ltb_ℤ}
use linux_dev_note.UserSpace.{holding}
use linux_dev_note.IoTest
use linux_dev_note.IoTest.{Io, Reply}
use linux_dev_note.IoTest.Cat.{is_more, drain}
use linux_dev_note.IoTest.Append.{Holds, write-Holds, drain-Holds, array_size}
use linux_dev_note.FileOps.{Vfs, IsVfs, Outcome, returns, undefined, waits, max_rw_count}
use linux_dev_note.FileOps.Tables.{io_fops, io_open, io_close}

abbrev concat : List (List ℕ) → List ℕ
concat [] = []
concat (xs ∷ xss) = xs ++ concat xss

module _ (v : Vfs) where
  abbrev closed : Outcome Io → Option Io
  closed (returns r) = some (v.close_file Io io_fops r.state)
  closed undefined = none
  closed waits = none

  abbrev pub echo : List ℕ → Io → Option Io
  echo xs s =
      let opened = (v.open_file Io io_fops s).1 in
      closed (v.write Io io_fops (holding xs) opened (length xs) (pos 0))

  unfoldable pub echoes : List (List ℕ) → Io → Option Io
  echoes [] s = some s
  echoes (xs ∷ xss) s = elim (echo xs s) [ none ↦ none | some s' ↦ echoes xss s' ]

  unfoldable reads : ℕ → ℕ → Io → ℤ → Option (List ℕ × Io)
  reads zero size s p = none
  reads (suc fuel) size s p = elim (v.read Io io_fops (holding []) s size p) [
    | undefined ↦ none
    | waits ↦ none
    | returns r ↦ elim (is_more r.ret) [
      | false ↦ some ([], r.state)
      | true ↦ elim (reads fuel size r.state r.loff) [
        | none ↦ none
        | some (rest, s') ↦ some (r.out ++ rest, s')
      ]
    ]
  ]

  unfoldable pub cat : ℕ → ℕ → Io → Option (List ℕ × Io)
  unfolding reads
  cat fuel size s = elim (reads fuel size (v.open_file Io io_fops s).1 (pos 0)) [
    | none ↦ none
    | some (out, s') ↦ some (out, v.close_file Io io_fops s')
  ]

  module _ (law : IsVfs v) where
    opened : (s : Io) → v.open_file Io io_fops s ≡ (pos 0, s)
    unfolding io_open
    opened s = law.open_set Io io_fops s io_open refl

    shut : (s : Io) → v.close_file Io io_fops s ≡ s
    unfolding io_close
    shut s = law.close_set Io io_fops s io_close refl

    read_some :
        (s : Io) (size : ℕ) (p : ℤ) (r : Reply)
        → size ≤ max_rw_count
        → IoTest.read (holding []) s size ≡ some r
        → v.read Io io_fops (holding []) s size p
          ≡ returns (record { state = r.io; ret = r.ret; loff = p; out = r.out })
    read_some s size p r h e =
        law.read_set Io io_fops (holding []) s size p _ h refl
        ∙ elim (Bool-cases (ltb_ℤ r.ret (pos 0))) [
          | inl t ↦ rw (e, t) refl
          | inr f ↦ rw (e, f) refl
        ]

    write_some :
        (s : Io) (ys : List ℕ) (p : ℤ) (r : Reply)
        → length ys ≤ max_rw_count
        → IoTest.write (holding ys) s (length ys) ≡ some r
        → v.write Io io_fops (holding ys) s (length ys) p
          ≡ returns (record { state = r.io; ret = r.ret; loff = p; out = r.out })
    write_some s ys p r h e =
        law.write_set Io io_fops (holding ys) s (length ys) p _ h refl
        ∙ elim (Bool-cases (ltb_ℤ r.ret (pos 0))) [
          | inl t ↦ rw (e, t) refl
          | inr f ↦ rw (e, f) refl
        ]

    read_none :
        (s : Io) (size : ℕ) (p : ℤ)
        → size ≤ max_rw_count
        → IoTest.read (holding []) s size ≡ none
        → v.read Io io_fops (holding []) s size p ≡ undefined
    read_none s size p h e = law.read_set Io io_fops (holding []) s size p _ h refl ∙ rw e refl

    reads-eq-drain :
        (fuel size : ℕ) (s : Io) (p : ℤ)
        → size ≤ max_rw_count
        → reads fuel size s p ≡ drain fuel (holding []) size s
    unfolding reads drain
    reads-eq-drain zero size s p h = refl
    reads-eq-drain (suc fuel) size s p h = elim (Option-cases (IoTest.read (holding []) s size)) [
      | inl e ↦ rw (reads, drain, e, read_none s size p h e) refl
      | inr (r, e) ↦ elim (Bool-cases (is_more r.ret)) [
        | inl t ↦
            rw (reads, drain, e, read_some s size p r h e, t, reads-eq-drain fuel size r.io p h)
              refl
        | inr f ↦ rw (reads, drain, e, read_some s size p r h e, f) refl
      ]
    ]

    echo-stored :
        (xs ys : List ℕ) (s : Io)
        → Holds xs s
        → length xs + length ys ≤ array_size
        → (s' : Io) × (echo ys s ≡ some s') × Holds (xs ++ ys) s'
    echo-stored xs ys s h fit =
        let (s', stored, now) = write-Holds xs ys s h fit in
        let sent : v.write Io io_fops (holding ys) s (length ys) (pos 0)
            ≡ returns (record { state = s'; ret = pos (length ys); loff = pos 0; out = [] }) =
          write_some s ys (pos 0) _ (omega arith) stored in
        (s', rw (opened s, sent, shut s') refl, now)

    echoes-stored :
        (xss : List (List ℕ)) (xs : List ℕ) (s : Io)
        → Holds xs s
        → length xs + length (concat xss) ≤ array_size
        → (s' : Io) × (echoes xss s ≡ some s') × Holds (xs ++ concat xss) s'
    unfolding echoes
    echoes-stored [] xs s h fit = (s, refl, subst (λ l. Holds l s) (sym (append-nil xs)) h)
    echoes-stored (ys ∷ yss) xs s h fit =
        let (s1, first, now) =
          echo-stored xs ys s h (omega (arith, length-append ys (concat yss))) in
        let (s2, rest, end) =
          echoes-stored yss (xs ++ ys) s1 now
            (omega (arith, length-append xs ys, length-append ys (concat yss))) in
        (
          s2,
          rw (echoes, first, rest) refl,
          subst (λ l. Holds l s2) (append_assoc xs ys (concat yss)) end,
        )

    -- Where the file layer keeps its laws, and the device holds nothing: texts of up to 100 bytes in all,
    -- each written by an echo of its own, are what a cat prints, one behind the other, whatever size
    -- above 0 and up to MAX_RW_COUNT it reads with; cat ends, its fuel being above the number of bytes;
    -- and the device holds nothing after it.
    pub cat-echoes :
        (xss : List (List ℕ)) (fuel size : ℕ) (s : Io)
        → Holds [] s
        → length (concat xss) ≤ array_size
        → 0 < size
        → size ≤ max_rw_count
        → length (concat xss) < fuel
        → (s' s'' : Io) × (echoes xss s ≡ some s')
          × (cat fuel size s' ≡ some (concat xss, s''))
          × Holds [] s''
    unfolding cat
    cat-echoes xss fuel size s h fit more le enough =
        let (s', stored, now) = echoes-stored xss [] s h (omega arith) in
        let (s'', got, end) =
          drain-Holds fuel (holding []) size (concat xss) s' now (λ n. refl) more enough in
        let run = reads-eq-drain fuel size s' (pos 0) le ∙ got in
        (s', s'', stored, rw (cat, opened s', run, shut s'') refl, end)
