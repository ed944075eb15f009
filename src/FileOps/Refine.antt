-- ===== src/FileOps/Refine.antt =====
-- The shared-memory device behind its `file_operations`, against a file of a fixed size.
use linux_dev_note.Common.{
  ◌≡◌, ◌≤◌, refl, ap, subst, sym, ◌∙◌, List, [], ◌∷◌, some, length, ℕ, ◌==◌, Bool-cases, inl, inr,
  fun_ext, update,
}
use linux_dev_note.Common.Int.{ℤ, pos}
use linux_dev_note.MutexDev.{Share, mem_size}
use linux_dev_note.FileOps.{Vfs, IsVfs, FileCall, session, session-cons}
use linux_dev_note.FileOps.Tables.{mutex_fops}
use linux_dev_note.FileOps.Flat.{FlatFiles, flat_call, flat_session, meant, all_meant}
use linux_dev_note.FileOps.Step.{InRange, any_call}

abbrev pub AllInRange : List (ℕ × FileCall) → Type 0
AllInRange [] = Unit {0}
AllInRange ((d, c) ∷ cs) = InRange c × AllInRange cs

-- the positions of a file's descriptors, as the kernel has them
abbrev pub positions : (ℕ → ℕ) → ℕ → ℤ
positions at d = pos (at d)

positions-update :
    (at : ℕ → ℕ) (d p : ℕ) → update (positions at) d (pos p) ≡ positions (update at d p)
positions-update at d p =
    fun_ext (λ u. elim (Bool-cases (d == u)) [ inl t ↦ rw t refl | inr f ↦ rw f refl ])

update-le : (at : ℕ → ℕ) (d p m : ℕ) → p ≤ m → ((u : ℕ) → at u ≤ m) → (u : ℕ) → update at d p u ≤ m
update-le at d p m h all u = elim (Bool-cases (d == u)) [ inl t ↦ rw t h | inr f ↦ rw f (all u) ]

module _ (v : Vfs) (law : IsVfs v) where
  -- What a session comes to: the answers and the end of the session on the file.
  abbrev pub Ends : List (ℕ × FileCall) → Share → FlatFiles → Type 0
  Ends cs sh f =
      (last : Share) × (session v mutex_fops cs (record { state = sh; f_pos = positions f.at })
        ≡ some (
          (flat_session (all_meant cs) f).0,
          record { state = last; f_pos = positions (flat_session (all_meant cs) f).1.at },
        ))
      × (last.mem ≡ (flat_session (all_meant cs) f).1.bytes)

  -- Where the file layer keeps its laws: whatever calls programs make on any number of descriptors of
  -- the device with a memory of 128 bytes, one after another in any order, reads and writes of up to
  -- MAX_RW_COUNT bytes and seeks by a long long, through buffers that do not fault, each call answers
  -- what it does on a file of those 128 bytes that neither grows nor shrinks and refuses a seek behind
  -- its end, but that a seek with SEEK_END answers what one with an offset one less does there; and the
  -- memory and the positions are the file's at the end.
  pub session-flat :
      (cs : List (ℕ × FileCall)) (sh : Share) (f : FlatFiles)
      → sh.mem ≡ f.bytes
      → length f.bytes ≡ mem_size
      → ((d : ℕ) → f.at d ≤ mem_size)
      → AllInRange cs
      → Ends cs sh f
  unfolding session flat_session
  session-flat [] sh f e whole in_file h = (sh, refl, e)
  session-flat ((d, c) ∷ cs) sh f e whole in_file h =
      let held : length sh.mem ≡ mem_size = ap length e ∙ whole in
      let first = any_call v law sh (f.at d) held (in_file d) c h.0 in
      let g = (flat_call (meant c) (record { bytes = sh.mem; at = f.at d })).1 in
      let (last, run, mem_eq) =
        session-flat cs first.state (record { bytes = g.bytes; at = update f.at d g.at })
          first.bytes_eq (ap length (sym first.bytes_eq) ∙ first.full)
          (update-le f.at d g.at mem_size first.inside in_file) h.1 in
      let run' =
        ap (λ ps. session v mutex_fops cs (record { state = first.state; f_pos = ps }))
          (positions-update f.at d g.at)
        ∙ run in
      subst (Ends ((d, c) ∷ cs) sh) (ap (λ b. record { bytes = b; at = f.at }) e)
        (last, session-cons v mutex_fops d c cs _ _ _ _ _ first.made run', mem_eq)
