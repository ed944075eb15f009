-- ===== src/FileOps.antt =====
-- How a program reaches the handlers of a driver: `struct file_operations`, which every driver fills
-- (FileOps/Tables.antt), and the kernel's file layer, which is an interface with the laws that
-- Documentation/filesystems/vfs.txt and the manual pages of the calls give.
pub mod Tables
pub mod Flat
pub mod Step
pub mod Refine
pub mod CharApp
pub mod EchoCat
use linux_dev_note.Common.{
  refl, ℕ, zero, suc, ◌≤◌, ◌≡◌, Bool, true, false, List, [], ◌∷◌, Option, none, some, if◌then◌else◌,
  length, ◌==◌, update,
}
use linux_dev_note.Common.Int.{ℤ, pos, minus, einval, ltb_ℤ}
use linux_dev_note.UserSpace.{UserBuffer, holding}
use linux_dev_note.MutexDev.{Whence}

-- What a handler of read or write leaves: the driver's state, its result, `*loff`, and the bytes that
-- reached the user.
pub record Served (S : Type 0) : Type 0 where
  pub state : S
  pub ret : ℤ
  pub loff : ℤ
  pub out : List ℕ

-- What a call of it comes to; `undefined` is an access outside an array.
pub data Outcome (S : Type 0) : Type 0 where
  returns : Served S → Outcome S
  undefined : Outcome S
  waits : Outcome S

-- The handlers over a driver's state; `none` where the field is not set.
pub record FileOps (S : Type 0) : Type 0 where
  pub on_open : Option (S → ℤ × S)
  pub release : Option (S → ℤ × S)
  pub llseek : Option (S → ℤ → ℤ → Whence → ℤ × ℤ)  -- f_pos, offset, whence: result, new f_pos
  pub read : Option (UserBuffer → S → ℕ → ℤ → Outcome S)
  pub write : Option (UserBuffer → S → ℕ → ℤ → Outcome S)
  pub unlocked_ioctl : Option (S → ℕ → ℤ × S)
  pub mmap : Option (S → ℕ → ℕ → ℤ × S)  -- vm_start, vm_end

-- MAX_RW_COUNT, for pages of 4096 bytes
abbrev pub max_rw_count : ℕ
max_rw_count = 0x7ffff000

-- The file layer, for a file at a position.
pub record Vfs : Type 1 where
  pub open_file : (S : Type 0) → FileOps S → S → ℤ × S
  pub close_file : (S : Type 0) → FileOps S → S → S
  pub lseek : (S : Type 0) → FileOps S → S → ℤ → ℤ → Whence → ℤ × ℤ
  pub read : (S : Type 0) → FileOps S → UserBuffer → S → ℕ → ℤ → Outcome S
  pub write : (S : Type 0) → FileOps S → UserBuffer → S → ℕ → ℤ → Outcome S
  pub ioctl : (S : Type 0) → FileOps S → S → ℕ → ℤ × S

-- The position stays where a call fails.
abbrev pub settled : {S : Type 0} → ℤ → Outcome S → Outcome S
settled p (returns r) = returns (record r { loff = if ltb_ℤ r.ret (pos 0) then p else r.loff })
settled p undefined = undefined
settled p waits = waits

-- What read and write come to where the driver has no handler.
abbrev pub refused : {S : Type 0} → S → ℤ → Outcome S
refused s p = returns (record { state = s; ret = minus einval; loff = p; out = [] })

pub record IsVfs (v : Vfs) : Type 1 where
  pub open_set :
      (S : Type 0) (ops : FileOps S) (s : S) (h : S → ℤ × S)
      → ops.on_open ≡ some h
      → v.open_file S ops s ≡ h s
  pub open_unset :
      (S : Type 0) (ops : FileOps S) (s : S) → ops.on_open ≡ none → v.open_file S ops s ≡ (pos 0, s)
  pub close_set :
      (S : Type 0) (ops : FileOps S) (s : S) (h : S → ℤ × S)
      → ops.release ≡ some h
      → v.close_file S ops s ≡ (h s).1
  pub lseek_set :
      (S : Type 0) (ops : FileOps S) (s : S) (p offset : ℤ) (whence : Whence)
      (h : S → ℤ → ℤ → Whence → ℤ × ℤ)
      → ops.llseek ≡ some h
      → v.lseek S ops s p offset whence ≡ h s p offset whence
  pub read_set :
      (S : Type 0) (ops : FileOps S) (buf : UserBuffer) (s : S) (n : ℕ) (p : ℤ)
      (h : UserBuffer → S → ℕ → ℤ → Outcome S)
      → n ≤ max_rw_count
      → ops.read ≡ some h
      → v.read S ops buf s n p ≡ settled p (h buf s n p)
  pub read_unset :
      (S : Type 0) (ops : FileOps S) (buf : UserBuffer) (s : S) (n : ℕ) (p : ℤ)
      → ops.read ≡ none
      → v.read S ops buf s n p ≡ refused s p
  pub write_set :
      (S : Type 0) (ops : FileOps S) (buf : UserBuffer) (s : S) (n : ℕ) (p : ℤ)
      (h : UserBuffer → S → ℕ → ℤ → Outcome S)
      → n ≤ max_rw_count
      → ops.write ≡ some h
      → v.write S ops buf s n p ≡ settled p (h buf s n p)
  pub write_unset :
      (S : Type 0) (ops : FileOps S) (buf : UserBuffer) (s : S) (n : ℕ) (p : ℤ)
      → ops.write ≡ none
      → v.write S ops buf s n p ≡ refused s p
  pub ioctl_set :
      (S : Type 0) (ops : FileOps S) (s : S) (cmd : ℕ) (h : S → ℕ → ℤ × S)
      → ops.unlocked_ioctl ≡ some h
      → v.ioctl S ops s cmd ≡ h s cmd

-- The calls of a program on a descriptor. Its buffers can be read and written.
pub data FileCall : Type 0 where
  read_bytes : ℕ → FileCall
  write_bytes : List ℕ → FileCall
  lseek : ℤ → Whence → FileCall

-- What a call answers: its result, and the bytes read.
pub record Answer : Type 0 where
  pub ret : ℤ
  pub out : List ℕ

-- A descriptor: the driver's state, and the file's position.
pub record File (S : Type 0) : Type 0 where
  pub state : S
  pub f_pos : ℤ

-- The descriptors that programs have opened on one device: the driver's state, and a position for each.
pub record Files (S : Type 0) : Type 0 where
  pub state : S
  pub f_pos : ℕ → ℤ

abbrev pub answered : {S : Type 0} → Outcome S → Option (Answer × File S)
answered (returns r) =
    some (record { ret = r.ret; out = r.out }, record { state = r.state; f_pos = r.loff })
answered undefined = none
answered waits = none

module _ (v : Vfs) {S : Type 0} (ops : FileOps S) where
  unfoldable pub call : FileCall → File S → Option (Answer × File S)
  call (read_bytes n) f = answered (v.read S ops (holding []) f.state n f.f_pos)
  call (write_bytes xs) f = answered (v.write S ops (holding xs) f.state (length xs) f.f_pos)
  call (lseek offset whence) f =
      let moved = v.lseek S ops f.state f.f_pos offset whence in
      some (record { ret = moved.0; out = [] }, record f { f_pos = moved.1 })

  -- The calls of programs one after another, each with its descriptor; `none` where one is undefined
  -- or waits.
  unfoldable pub session : List (ℕ × FileCall) → Files S → Option (List Answer × Files S)
  session [] f = some ([], f)
  session ((d, c) ∷ cs) f = elim (call c (record { state = f.state; f_pos = f.f_pos d })) [
    | none ↦ none
    | some (a, g) ↦
        elim (session cs (record { state = g.state; f_pos = update f.f_pos d g.f_pos })) [
          | none ↦ none
          | some (as', last) ↦ some (a ∷ as', last)
        ]
  ]

  pub session-cons :
      (d : ℕ) (c : FileCall) (cs : List (ℕ × FileCall)) (f last : Files S) (g : File S) (a : Answer)
      (as' : List Answer)
      → call c (record { state = f.state; f_pos = f.f_pos d }) ≡ some (a, g)
      → session cs (record { state = g.state; f_pos = update f.f_pos d g.f_pos }) ≡ some (as', last)
      → session ((d, c) ∷ cs) f ≡ some (a ∷ as', last)
  unfolding session
  session-cons d c cs f last g a as' e h = rw (session, e, h) refl
