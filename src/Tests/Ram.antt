-- ===== src/Tests/Ram.antt =====
-- A block layer that can be computed with, and the RAM disk over it.
use linux_dev_note.Common.{
  ℕ, ◌+◌, ◌*◌, ◌≡◌, ◌++◌, refl, arith, List, [], ◌∷◌, some, min, take, drop, length, length-drop,
  ltb,
}
use linux_dev_note.Common.Bytes.{blit}
use linux_dev_note.MmapDev.Session.{copies, length-copies}
use linux_dev_note.BlockDev.{disk_bytes, do_request}
use linux_dev_note.BlockDev.Layer.{BlkLayer, IsBlkLayer, Dir}
use linux_dev_note.BlockDev.Queue.{stores, Answers, do_request_lem, read_after_write}

-- A request: its sector, what is left of its data (of a read, as many bytes of no meaning), the
-- bytes copied into its current buffer, and those handed over.
record Request : Type 0 where
  sector : ℕ
  dir : Dir
  left : List ℕ
  filled : List ℕ
  done : List ℕ

-- Buffers are of at most 512 bytes.
abbrev cur_bytes : Request → ℕ
cur_bytes r = min 512 (length r.left)

abbrev ram_layer : BlkLayer
ram_layer = record {
  Req = Request;
  rq_pos = λ r. r.sector;
  rq_bytes = λ r. length r.left;
  rq_cur_bytes = cur_bytes;
  rq_data_dir = λ r. r.dir;
  bio_data = λ r. take (cur_bytes r) r.left;
  fill = λ r xs. record r { filled = xs };
  end_request_cur = λ r. (
    ltb (cur_bytes r) (length r.left),
    record {
      sector = r.sector + 1;
      dir = r.dir;
      left = drop (cur_bytes r) r.left;
      filled = [];
      done = r.done ++ r.filled;
    },
  );
  payload = λ r. r.left;
  received = λ r. r.done;
}

ram_layer_law : IsBlkLayer ram_layer
ram_layer_law = record {
  cur_le = λ r. omega arith;
  cur_pos = λ r h. omega arith;
  more = λ r. refl;
  bytes_next = λ r. length-drop (cur_bytes r) r.left;
  pos_next = λ r h. ground arith;
  length-payload = λ r. refl;
  bio_data_eq = λ r. refl;
  payload_next = λ r. refl;
  pos_fill = λ r xs. refl;
  bytes_fill = λ r xs. refl;
  cur_fill = λ r xs. refl;
  received_next = λ r xs h. refl;
}

abbrev blank : List ℕ
blank = copies disk_bytes 0

abbrev bytes : List ℕ
bytes = copies 600 9

abbrev at_three : Request
at_three = record { sector = 3; dir = Dir.write; left = bytes; filled = []; done = [] }

abbrev back : Request
back = record { sector = 3; dir = Dir.read; left = copies 600 0; filled = []; done = [] }

-- one that begins in the last sector and goes behind the end
abbrev beyond : Request
beyond = record { sector = 32767; dir = Dir.write; left = bytes; filled = []; done = [] }

do_request_lem_example :
    (rs' : List Request) × (do_request ram_layer 601 blank (at_three ∷ beyond ∷ [])
      ≡ some (stores ram_layer blank (at_three ∷ beyond ∷ []), rs'))
    × Answers ram_layer blank (at_three ∷ beyond ∷ []) rs'
do_request_lem_example =
    do_request_lem ram_layer ram_layer_law 601 blank (at_three ∷ beyond ∷ [])
      (length-copies disk_bytes 0)
      (
        omega (arith, length-copies 600 9),
        omega (arith, length-copies 600 9),
        (omega (arith, length-copies 600 9), omega (arith, length-copies 600 9), tt),
      )

read_after_write_example :
    (w' r' : Request) × (do_request ram_layer 601 blank (at_three ∷ back ∷ [])
      ≡ some (blit blank (3 * 512) bytes, w' ∷ r' ∷ []))
    × (r'.done ≡ [] ++ bytes)
read_after_write_example =
    read_after_write ram_layer ram_layer_law 601 blank at_three back (length-copies disk_bytes 0)
      refl refl refl refl (omega (arith, length-copies 600 9)) (omega (arith, length-copies 600 9))
