-- ===== src/BlockDev.antt =====
-- The RAM disk of 12-block_device/block_device.c: `simp_blkdev_do_request` over the requests that
-- blk_fetch_request yields, in their order. The block layer is the interface of BlockDev/Layer.antt.
pub mod Layer
pub mod Serve
pub mod Queue
use linux_dev_note.Common.{
  ℕ, zero, suc, ◌+◌, ◌*◌, ◌%◌, ◌^◌, Bool, true, false, List, [], ◌∷◌, Option, none, some, ltb,
  if◌then◌else◌,
}
use linux_dev_note.Common.Bytes.{slice, blit}
use Layer.{BlkLayer, Dir}

-- SIMP_BLKDEV_BYTES
abbrev pub disk_bytes : ℕ
disk_bytes = 16 * 1024 * 1024

module _ (b : BlkLayer) where
  open b use {Req, rq_pos, rq_bytes, rq_cur_bytes, rq_data_dir, bio_data, fill, end_request_cur}

  -- `blk_rq_pos(req) << SECTOR_SIZE_SHIFT`, as a 64-bit sector_t
  unfoldable pub offset : Req → ℕ
  offset r = rq_pos r * 2 ^ 9 % 2 ^ 64

  -- the test of the request against the size of the disk
  unfoldable pub is_bad : Req → Bool
  is_bad r = ltb disk_bytes ((offset r + rq_bytes r) % 2 ^ 64)

  -- one round of the loop of `case READ`
  unfoldable pub read_round : List ℕ → Req → Bool × Req
  read_round disk r = end_request_cur (fill r (slice disk (offset r) (rq_cur_bytes r)))

  -- the loop; `none` where the fuel runs out
  unfoldable pub read_loop : ℕ → List ℕ → Req → Option Req
  read_loop zero disk r = none
  read_loop (suc fuel) disk r = elim (read_round disk r).0 [
    | true ↦ read_loop fuel disk (read_round disk r).1
    | false ↦ some (read_round disk r).1
  ]

  -- the loop of `case WRITE`
  unfoldable pub write_loop : ℕ → List ℕ → Req → Option (List ℕ × Req)
  write_loop zero disk r = none
  write_loop (suc fuel) disk r =
      let disk' = blit disk (offset r) (bio_data r) in
      elim (end_request_cur r).0 [
        | true ↦ write_loop fuel disk' (end_request_cur r).1
        | false ↦ some (disk', (end_request_cur r).1)
      ]

  -- One round of the outer loop, with fuel for each inner one: the disk and the request after it.
  -- A bad request has its current buffer ended, with the error 0, and no byte copied.
  unfoldable pub serve : ℕ → List ℕ → Req → Option (List ℕ × Req)
  serve fuel disk r =
      if is_bad r then some (disk, (end_request_cur r).1) else elim (rq_data_dir r) [
        | Dir.read ↦ elim (read_loop fuel disk r) [ none ↦ none | some r' ↦ some (disk, r') ]
        | Dir.write ↦ write_loop fuel disk r
      ]

  unfoldable pub do_request : ℕ → List ℕ → List Req → Option (List ℕ × List Req)
  do_request fuel disk [] = some (disk, [])
  do_request fuel disk (r ∷ rs) = elim (serve fuel disk r) [
    | none ↦ none
    | some (disk', r') ↦ elim (do_request fuel disk' rs) [
      | none ↦ none
      | some (disk'', rs') ↦ some (disk'', r' ∷ rs')
    ]
  ]
