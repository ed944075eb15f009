-- ===== src/BlockDev/Layer.antt =====
-- The block layer of the kernel, which 12-block_device/block_device.c calls: an interface of its
-- functions on a request, and the laws that its documentation gives.
use linux_dev_note.Common.{
  ℕ, ◌+◌, ◌-◌, ◌*◌, ◌≤◌, ◌<◌, ◌≡◌, Bool, true, List, ◌++◌, ltb, length, take, drop,
}

-- The two values of rq_data_dir.
pub data Dir : Type 0 where
  read write : Dir

pub record BlkLayer : Type 1 where
  pub Req : Type 0
  pub rq_pos : Req → ℕ  -- blk_rq_pos, in sectors of 512 bytes
  pub rq_bytes : Req → ℕ  -- blk_rq_bytes: what is left of the request
  pub rq_cur_bytes : Req → ℕ  -- blk_rq_cur_bytes: what is left of its current buffer
  pub rq_data_dir : Req → Dir
  pub bio_data : Req → List ℕ  -- the current buffer of a write
  pub fill : Req → List ℕ → Req  -- memcpy into the current buffer of a read
  pub end_request_cur : Req → Bool × Req  -- __blk_end_request_cur(req, 0)
  -- what is left of the data of a write, and the data that a read has completed
  pub payload : Req → List ℕ
  pub received : Req → List ℕ

pub record IsBlkLayer (b : BlkLayer) : Type 0 where
  -- The current buffer is a part of what is left, and empty only where nothing is left.
  pub cur_le : (r : b.Req) → b.rq_cur_bytes r ≤ b.rq_bytes r
  pub cur_pos : (r : b.Req) → 0 < b.rq_bytes r → 0 < b.rq_cur_bytes r
  -- Ending the current buffer says whether anything is left, and goes on to the next.
  pub more : (r : b.Req) → (b.end_request_cur r).0 ≡ ltb (b.rq_cur_bytes r) (b.rq_bytes r)
  pub bytes_next :
      (r : b.Req) → b.rq_bytes (b.end_request_cur r).1 ≡ b.rq_bytes r - b.rq_cur_bytes r
  pub pos_next :
      (r : b.Req)
      → (b.end_request_cur r).0 ≡ true
      → b.rq_pos (b.end_request_cur r).1 * 512 ≡ b.rq_pos r * 512 + b.rq_cur_bytes r
  -- The data of a write are taken from the front.
  pub length-payload : (r : b.Req) → length (b.payload r) ≡ b.rq_bytes r
  pub bio_data_eq : (r : b.Req) → b.bio_data r ≡ take (b.rq_cur_bytes r) (b.payload r)
  pub payload_next :
      (r : b.Req) → b.payload (b.end_request_cur r).1 ≡ drop (b.rq_cur_bytes r) (b.payload r)
  -- Filling the buffer of a read changes what ending it hands over, and nothing else.
  pub pos_fill : (r : b.Req) (xs : List ℕ) → b.rq_pos (b.fill r xs) ≡ b.rq_pos r
  pub bytes_fill : (r : b.Req) (xs : List ℕ) → b.rq_bytes (b.fill r xs) ≡ b.rq_bytes r
  pub cur_fill : (r : b.Req) (xs : List ℕ) → b.rq_cur_bytes (b.fill r xs) ≡ b.rq_cur_bytes r
  pub received_next :
      (r : b.Req) (xs : List ℕ)
      → length xs ≡ b.rq_cur_bytes r
      → b.received (b.end_request_cur (b.fill r xs)).1 ≡ b.received r ++ xs
