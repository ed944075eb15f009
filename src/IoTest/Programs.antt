-- ===== src/IoTest/Programs.antt =====
-- The two programs of 03-fileOperate/fileOperate/RWTest, write_app.c and read_app.c, run in turns.
use linux_dev_note.Common.{
  ℕ, zero, suc, ◌+◌, ◌-◌, ◌*◌, ◌%◌, ◌^◌, ◌≤◌, ◌<◌, ◌≡◌, refl, ap, sym, ◌∙◌, List, [], ◌∷◌, Option,
  none, some, arith, min, length,
}
use linux_dev_note.Common.Bytes.{slice, blit, slice-blit, length-blit}
use linux_dev_note.UserSpace.{UserBuffer, holding}
use linux_dev_note.IoTest.{Io, read, write}
use linux_dev_note.IoTest.Cat.{read_part}
use linux_dev_note.IoTest.Append.{array_size, write_stores, write_overflow, written}

-- "1234", with its final 0
abbrev pub message : List ℕ
message = 49 ∷ 50 ∷ 51 ∷ 52 ∷ 0 ∷ []

-- `main` of write_app.c, where open gave a descriptor: the device after it.
unfoldable pub write_main : Io → Option Io
write_main s = elim (write (holding message) s 5) [ none ↦ none | some r ↦ some r.io ]

-- `main` of read_app.c: the bytes that arrive in `num`, and the device after it.
unfoldable pub read_main : UserBuffer → Io → Option (List ℕ × Io)
read_main num s = elim (read num s 5) [ none ↦ none | some r ↦ some (r.out, r.io) ]

-- `n` times one program and then the other: what was read, and the device after it.
unfoldable pub turns : UserBuffer → ℕ → Io → Option (List (List ℕ) × Io)
unfolding write_main read_main
turns num zero s = some ([], s)
turns num (suc n) s = elim (write_main s) [
  | none ↦ none
  | some s' ↦ elim (read_main num s') [
    | none ↦ none
    | some (out, s'') ↦ elim (turns num n s'') [
      | none ↦ none
      | some (outs, last) ↦ some (out ∷ outs, last)
    ]
  ]
]

abbrev pub times : ℕ → List (List ℕ)
times zero = []
times (suc n) = message ∷ times n

-- Both positions stand behind `m` messages.
record Turned (m : ℕ) (s : Io) : Type 0 where
  room : length s.byte ≡ array_size
  front : s.postion ≡ 5 * m
  end : s.buff_pos ≡ 5 * m

abbrev after : ℕ → Io → Io
after m s = record {
  postion = (s.postion + 5) % 2 ^ 32;
  byte = blit s.byte s.buff_pos message;
  buff_len = s.buff_pos + 5 - 5;
  buff_pos = s.buff_pos + 5;
}

turn-write : (m : ℕ) (s : Io) → Turned m s → m < 20 → write_main s ≡ some (written s message)
unfolding write_main
turn-write m s v h = rw (write_main, write_stores s message (omega (arith, v.room, v.end))) refl

turn-read :
    (num : UserBuffer) (m : ℕ) (s : Io)
    → Turned m s
    → m < 20
    → num.uncopied 5 ≡ 0
    → read_main num (written s message) ≡ some (message, after m s)
unfolding read_main
turn-read num m s v h ok =
    rw
      (
        read_main,
        read_part num (written s message) 5 (rw k ok) (omega arith) (omega arith)
            (omega (arith, length-blit s.byte s.buff_pos message, v.room, v.front)),
        k,
      )
      (ap (λ l. some (l, after m s)) seen)
  where
    k : min 5 (s.buff_pos + 5) ≡ 5
    k = omega arith

    seen : slice (blit s.byte s.buff_pos message) s.postion 5 ≡ message
    seen =
        ap (λ q. slice (blit s.byte s.buff_pos message) q 5) (v.front ∙ sym v.end)
        ∙ slice-blit s.byte s.buff_pos message (omega (arith, v.room, v.end))

turns-step :
    (num : UserBuffer) (n : ℕ) (s s' s'' : Io) (out : List ℕ)
    → write_main s ≡ some s'
    → read_main num s' ≡ some (out, s'')
    → turns num (suc n) s
      ≡ elim (turns num n s'') [ none ↦ none | some (outs, last) ↦ some (out ∷ outs, last) ]
unfolding turns
turns-step num n s s' s'' out w r = rw (turns, w, r) refl

after-Turned : (m : ℕ) (s : Io) → Turned m s → m < 20 → Turned (suc m) (after m s)
after-Turned m s v h = record {
  room = length-blit s.byte s.buff_pos message ∙ v.room;
  front = omega (arith, v.front);
  end = omega (arith, v.end);
}

turns_from :
    (num : UserBuffer) (n m : ℕ) (s : Io)
    → Turned m s
    → m + n ≤ 20
    → num.uncopied 5 ≡ 0
    → (last : Io) × (turns num n s ≡ some (times n, last)) × Turned (m + n) last
unfolding turns
turns_from num zero m s v h ok =
    (s, refl, record { room = v.room; front = omega (arith, v.front); end = omega (arith, v.end) })
turns_from num (suc n) m s v h ok =
    let (last, run, turned) =
      turns_from num n (suc m) (after m s) (after-Turned m s v (omega arith)) (omega arith) ok in
    (
      last,
      turns-step num n s (written s message) (after m s) message (turn-write m s v (omega arith))
            (turn-read num m s v (omega arith) ok)
          ∙ rw run refl,
      record {
        room = turned.room;
        front = omega (arith, turned.front);
        end = omega (arith, turned.end);
      },
    )

-- From a device with an array of 100 bytes and both positions at 0, and with no fault, each of up
-- to 20 readings of read_app gets the message of the write_app before it.
turns_lem :
    (num : UserBuffer) (n : ℕ) (s : Io)
    → length s.byte ≡ array_size
    → s.postion ≡ 0
    → s.buff_pos ≡ 0
    → num.uncopied 5 ≡ 0
    → n ≤ 20
    → (last : Io) × (turns num n s ≡ some (times n, last))
turns_lem num n s full front end ok h =
    let v : Turned 0 s = record { room = full; front = front; end = end } in
    let (last, run, turned) = turns_from num n 0 s v (omega arith) ok in (last, run)

-- From a device with an array of 100 bytes and both positions at 0, and with no fault: after 20
-- turns the next write_app stores behind the end of the array, since read_app never reads as far
-- as the 0 that sets the positions back.
turns-write_main :
    (num : UserBuffer) (s : Io)
    → length s.byte ≡ array_size
    → s.postion ≡ 0
    → s.buff_pos ≡ 0
    → num.uncopied 5 ≡ 0
    → (last : Io) × (turns num 20 s ≡ some (times 20, last)) × (write_main last ≡ none)
unfolding write_main
turns-write_main num s full front end ok =
    let v : Turned 0 s = record { room = full; front = front; end = end } in
    let (last, run, turned) = turns_from num 20 0 s v (omega arith) ok in
    (
      last,
      run,
      rw
          (
            write_main,
            write_overflow last message (omega (arith, turned.room, turned.end))
                (omega (arith, turned.room, turned.end)),
          )
          refl,
    )
