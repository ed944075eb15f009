-- ===== src/Tests/Control.antt =====
-- The other drivers and programs at concrete inputs.
use linux_dev_note.Common.{◌≤◌, ◌↔◌, ◌+◌, ◌*◌, ◌/◌, ◌%◌, ◌≡◌, ◌++◌, refl, arith, true, update}
use linux_dev_note.Common.Int.{pos, minus, enotty}
use linux_dev_note.Common.Bytes.{slice}
use linux_dev_note.IoctlDev.{IoctlCode, IsIoctlCode, Log, ioctl, magic_number}
use linux_dev_note.SemaphoreDev.{System, Step, down, init, read, Reach, start, later, Pc}
use linux_dev_note.SemaphoreDev.Count.{can_return}
use linux_dev_note.MmapDev.{loaded, main}
use linux_dev_note.MmapDev.Session.{copies, counting, main-loaded}

-- The numbers of asm-generic/ioctl.h, but for the width of the size.
abbrev pub codes : IoctlCode
codes = record {
  io = λ t n. t * 256 + n;
  iow = λ t n z. t * 256 + n + (z * 4 + 1) * 65536;
  ior = λ t n z. t * 256 + n + (z * 4 + 2) * 65536;
  iowr = λ t n z. t * 256 + n + (z * 4 + 3) * 65536;
  ioc_type = λ c. c / 256 % 256;
  ioc_nr = λ c. c % 256;
}

pub codes_law : IsIoctlCode codes
codes_law = record {
  type_io = λ t n h k. omega arith;
  nr_io = λ t n h k. omega arith;
  type_iow = λ t n z h k. omega arith;
  nr_iow = λ t n z h k. omega arith;
  type_ior = λ t n z h k. omega arith;
  nr_ior = λ t n z h k. omega arith;
  type_iowr = λ t n z h k. omega arith;
  nr_iowr = λ t n z h k. omega arith;
}

-- A number above 8 is refused.
number_above : ioctl codes (pos 0) (magic_number * 256 + 9) ≡ (minus enotty, Log.number_error)
unfolding ioctl
number_above = refl

-- One reader has returned.
abbrev taken : System
taken = record { count = 0; pc = update init.pc 3 (Pc.done (pos 0)); reads = 1; writes = 0 }

taken-Reach : Reach taken
unfolding read
taken-Reach = later start (down 3 refl (omega arith))

-- Thread 2 waits there until a write has returned.
can_return_example :
    (taken.count + taken.reads ≡ taken.writes + 1)
    × (((u : System) × Step taken u × (u.pc 2 ≡ Pc.done (pos 0))) ↔ (taken.reads ≤ taken.writes))
can_return_example = can_return taken 2 taken-Reach refl

main-loaded_example :
    ((main true true (loaded (copies 4096 5))).printed ≡ counting 0 10 ++ copies 10 66)
    × (slice (main true true (loaded (copies 4096 5))).page 0 10 ≡ copies 10 66)
    × (slice (main true true (loaded (copies 4096 5))).page 10 4086 ≡ slice (copies 4096 5) 10 4086)
main-loaded_example = main-loaded (copies 4096 5) refl
