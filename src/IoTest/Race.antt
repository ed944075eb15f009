-- ===== src/IoTest/Race.antt =====
-- Readers of 03-fileOperate/fileOperate/RWTest/fileOperate_drv.c at the same time, and one alone.
use linux_dev_note.Common.{
  ℕ, zero, suc, ◌+◌, ◌≤◌, ◌<◌, ◌≡◌, refl, ap, ◌∙◌, List, some, arith, length, ℕ_discrete, update,
}
use linux_dev_note.Common.Int.{pos}
use linux_dev_note.Common.Bytes.{slice}
use linux_dev_note.UserSpace.{UserBuffer}
use linux_dev_note.IoTest.{Io}
use linux_dev_note.IoTest.Append.{Holds, array_size}
use linux_dev_note.IoTest.Calls.{
  Call, testing, copying, copied, returned, System, chosen, choose, copy, finish, Run, here,
  further,
}

abbrev pub fresh : Io → System
fresh dev = record { dev = dev; pc = λ t. testing }

-- `n` reads of `size` bytes.
abbrev pub readers : UserBuffer → ℕ → ℕ → Call
readers buf size t = record { buf = buf; size = size }

module _ (buf : UserBuffer) (dev : Io) (xs : List ℕ) (n : ℕ) (holds : Holds xs dev)
    (fits : length xs ≤ array_size) (ok : buf.uncopied (length xs) ≡ 0) where
  -- The first `m` readers have copied, and no global has moved.
  pub record Copied (m : ℕ) : Type 0 where
    pub last : System
    pub run : Run n (readers buf (length xs)) (fresh dev) last
    pub dev_eq : last.dev ≡ dev
    pub behind : (t : ℕ) → t < m → last.pc t ≡ copied (length xs) xs
    pub before : (t : ℕ) → m ≤ t → last.pc t ≡ testing

  copy_one : (m : ℕ) → m < n → Copied m → Copied (suc m)
  copy_one m h p = record {
    last = record {
      dev = p.last.dev;
      pc =
          update (update p.last.pc m (copying k)) m
            (copied k (slice p.last.dev.byte p.last.dev.postion k));
    };
    run =
        further
          (further p.run
            (choose m k h (p.before m (omega arith)) (ap (λ d. chosen d k) p.dev_eq ∙ all_of_it)))
          (copy m k h (ground arith) (omega (arith, room)) ok);
    dev_eq = p.dev_eq;
    behind = λ t lt. elim (ℕ_discrete m t) [
      | yes e ↦ ground (arith, ap (copied k) bytes_eq)
      | no ne ↦ ground (arith, p.behind t)
    ];
    before = λ t le. ground (arith, p.before t);
  }
    where
      k : ℕ
      k = length xs

      all_of_it : chosen dev k ≡ some k
      all_of_it = ground (arith, holds.len)

      room : p.last.dev.postion + k ≤ length p.last.dev.byte
      room = rw p.dev_eq omega (arith, holds.front, holds.full)

      bytes_eq : slice p.last.dev.byte p.last.dev.postion k ≡ xs
      bytes_eq =
          ap (λ d. slice d.byte d.postion k) p.dev_eq
          ∙ ap (λ q. slice dev.byte q k) holds.front
          ∙ holds.content

  pub copies : (m : ℕ) → m ≤ n → Copied m
  copies zero h = record {
    last = fresh dev;
    run = here;
    dev_eq = refl;
    behind = λ t lt. elim lt [ ];
    before = λ t le. refl;
  }
  copies (suc m) h = copy_one m h (copies m (omega arith))

  -- The first `m` of them have returned.
  record Returned (m : ℕ) : Type 0 where
    last : System
    run : Run n (readers buf (length xs)) (fresh dev) last
    done : (t : ℕ) → t < m → last.pc t ≡ returned (pos (length xs)) xs
    behind : (t : ℕ) → m ≤ t → t < n → last.pc t ≡ copied (length xs) xs

  return_one : (m : ℕ) → m < n → Returned m → Returned (suc m)
  return_one m h p = record {
    last = _;
    run = further p.run (finish m (length xs) xs h (p.behind m (omega arith) h));
    done = λ t lt. ground (arith, p.done t);
    behind = λ t le lt. ground (arith, p.behind t);
  }

  all_return : (m : ℕ) → m ≤ n → Returned m
  all_return zero h =
      let p = copies n (omega arith) in
      record {
        last = p.last;
        run = p.run;
        done = λ t lt. elim lt [ ];
        behind = λ t le lt. p.behind t lt;
      }
  all_return (suc m) h = return_one m h (all_return m (omega arith))

-- Where the device holds `xs`, which is not read yet, and each of `n` readers asks for as many bytes,
-- into a buffer that does not fault: the readers can all get through the test and the copy before the
-- first of them moves `postion` and `buff_len` on, and then every one of them returns with all of
-- `xs`, which one write has given once.
same_bytes_to_all :
    (buf : UserBuffer) (dev : Io) (xs : List ℕ) (n : ℕ)
    → Holds xs dev
    → length xs ≤ array_size
    → buf.uncopied (length xs) ≡ 0
    → (s : System) × Run n (readers buf (length xs)) (fresh dev) s
      × ((t : ℕ) → t < n → s.pc t ≡ returned (pos (length xs)) xs)
same_bytes_to_all buf dev xs n holds fits ok =
    let p = all_return buf dev xs n holds fits ok n (omega arith) in (p.last, p.run, p.done)
