-- ===== src/Tests/Mutex.antt =====
-- The shared-memory device at concrete inputs.
use linux_dev_note.Common.{
  ◌≤◌, ◌⊎◌, ◌<◌, ◌≢◌, get_or, inr, ℕ, zero, suc, ◌≡◌, refl, arith, true, false, List, [], ◌∷◌,
  update,
}
use linux_dev_note.Common.Int.{pos, negsuc, add64}
use linux_dev_note.Common.Bytes.{blit}
use linux_dev_note.UserSpace.{holding}
use linux_dev_note.MmapDev.Session.{copies}
use linux_dev_note.MutexDev.{Share, clamp_count, write, copy_in, copy_byte, fetched, Whence, llseek}
use linux_dev_note.MutexDev.Transfer.{arriving, write_lem}
use linux_dev_note.MutexDev.Seek.{llseek_lem}
use linux_dev_note.MutexDev.Threads.{
  entering, Pc, Job, copying, reading, wrote, got, System, critical, fresh,
}
use linux_dev_note.MutexDev.Locked.{
  Reach, start, later, lock_write, copy, unlock_write, lock_read, unlock_read, shown,
}
use linux_dev_note.MutexDev.Order.{commit, Counts, Saw}
use linux_dev_note.MutexDev.Serial.{mutual_exclusion, serializable}
use linux_dev_note.MutexDev.App.{app_job, wrbuf}
use linux_dev_note.MutexDev.Shared.{IsWhole, reader_sees_one_write}
use linux_dev_note.MutexDev.Unlocked
use linux_dev_note.MutexDev.Torn.{rivals, torn_read}
use linux_dev_note.MutexDev.Inside.{store_inside}
use linux_dev_note.MutexDev.Progress.{Run, finished, can_finish}
use linux_dev_note.MutexDev.Bounded.{total, More, one_more, none_yet, all_end}
use linux_dev_note.MutexDev.Alone.{alone_lem}

abbrev blank : Share
blank = record { mem = copies 128 0; writecount = 6 }

abbrev three : List ℕ
three = 7 ∷ 8 ∷ 9 ∷ []

-- A write of three bytes at 126 stores two.
write_at_end :
    (write (holding three) blank 3 (pos 126)).1 ≡ record { ret = pos 2; loff = pos 128; out = [] }
unfolding write clamp_count copy_in copy_byte fetched add64
write_at_end = refl

write_lem_example : write (holding three) blank 3 (pos 126) ≡ (
  record { mem = blit blank.mem 126 (arriving (holding three) blank.mem 126 0 2); writecount = 7 },
  record { ret = pos 2; loff = pos 128; out = [] },
)
write_lem_example = write_lem (holding three) blank 3 126 (omega arith) (omega arith)

llseek_lem_example : llseek (pos 100) (negsuc 99) Whence.seek_cur ≡ (pos 0, pos 0)
llseek_lem_example =
    llseek_lem 100 (negsuc 99) Whence.seek_cur (omega arith) (omega arith, omega arith)

-- The program's two writers: the reader can see BBAAA.
torn_read_example :
    (s : System) × Unlocked.Reach (rivals (wrbuf 0) (wrbuf 1) 0) blank.mem s
    × (s.pc 2 ≡ got (66 ∷ 66 ∷ 65 ∷ 65 ∷ 65 ∷ []))
torn_read_example =
    torn_read blank.mem (wrbuf 0) (wrbuf 1) 0 2 refl refl (omega arith) (omega arith) (omega arith)

-- Thread 0 writes a byte at 3, every other reads it.
abbrev jobs : ℕ → Job
jobs zero = record { writes = true; buff = holding (5 ∷ []); cnt = 1; p = 3 }
jobs (suc t) = record { writes = false; buff = holding []; cnt = 1; p = 3 }

abbrev during : System
during = record { mem = blank.mem; locked = true; pc = update (fresh blank.mem).pc 0 (copying 0) }

during-Reach : Reach jobs blank.mem during
during-Reach = later start (lock_write 0 refl refl (omega arith) refl)

abbrev stored : System
stored = record {
  mem = copy_byte (holding (5 ∷ [])) blank.mem 3 0;
  locked = false;
  pc = update (update during.pc 0 (copying 1)) 0 wrote;
}

stored-Reach : Reach jobs blank.mem stored
unfolding clamp_count
stored-Reach =
    later (later during-Reach (copy 0 0 refl (omega arith))) (unlock_write 0 1 refl (omega arith))

abbrev shared : System
shared = record {
  mem = stored.mem;
  locked = false;
  pc = update (update stored.pc 2 reading) 2 (got (shown jobs 2 stored.mem));
}

shared-Reach : Reach jobs blank.mem shared
shared-Reach =
    later (later stored-Reach (lock_read 2 refl refl (omega arith) refl)) (unlock_read 2 refl)

mutual_exclusion_example : critical (during.pc 1) ≡ false
mutual_exclusion_example = mutual_exclusion jobs blank.mem 0 1 during-Reach (λ e. omega arith) refl

-- A reader that waits while thread 0 holds the mutex.
can_finish_example : (w : System) × Run jobs during w × (finished (w.pc 1) ≡ true)
can_finish_example = can_finish jobs blank.mem 1 during-Reach

-- Thread 0 has the mutex.
all_end_example :
    (1 ≤ total jobs 2 (λ t. entering))
    × (More jobs 2 during ⊎ ((t : ℕ) → t < 2 → finished (during.pc t) ≡ true))
all_end_example =
    all_end jobs 2 blank.mem during 1
      (one_more none_yet (lock_write 0 refl refl (omega arith) refl) (omega arith))

serializable_example :
    (order : List ℕ) × (shared.mem ≡ commit jobs blank.mem order)
    × Counts jobs blank.mem order shared.pc
    × Saw jobs blank.mem order shared.pc
serializable_example = serializable jobs blank.mem shared-Reach refl

-- Thread 0 of the program writes, and then thread 2 reads.
abbrev after_write : List ℕ
after_write = copy_in (holding (wrbuf 0)) 0 0 5 blank.mem

abbrev written_pc : ℕ → Pc
written_pc =
    update
      (update
        (update
          (update
            (update (update (update (fresh blank.mem).pc 0 (copying 0)) 0 (copying 1)) 0
              (copying 2))
            0 (copying 3))
          0 (copying 4))
        0 (copying 5))
      0 wrote

abbrev program_end : System
program_end = record {
  mem = after_write;
  locked = false;
  pc = update (update written_pc 2 reading) 2 (got (shown app_job 2 after_write));
}

program_end-Reach : Reach app_job blank.mem program_end
unfolding app_job clamp_count copy_in
program_end-Reach =
    later
      (later
        (later
          (later
            (later
              (later
                (later
                  (later (later start (lock_write 0 refl refl (omega arith) refl))
                    (copy 0 0 refl (omega arith)))
                  (copy 0 1 refl (omega arith)))
                (copy 0 2 refl (omega arith)))
              (copy 0 3 refl (omega arith)))
            (copy 0 4 refl (omega arith)))
          (unlock_write 0 5 refl (omega arith)))
        (lock_read 2 refl refl (omega arith) refl))
      (unlock_read 2 refl)

reader_sees_one_write_example : IsWhole blank.mem (shown app_job 2 after_write)
reader_sees_one_write_example =
    reader_sees_one_write blank.mem (shown app_job 2 after_write) refl program_end-Reach refl

-- Thread 0 alone, without the mutex.
abbrev unguarded : System
unguarded = record {
  mem = copy_byte (holding (5 ∷ [])) blank.mem 3 0;
  locked = false;
  pc = update (update (update (fresh blank.mem).pc 0 (copying 0)) 0 (copying 1)) 0 wrote;
}

unguarded-Reach : Unlocked.Reach jobs blank.mem unguarded
unfolding clamp_count
unguarded-Reach =
    Unlocked.later
      (Unlocked.later
        (Unlocked.later Unlocked.start (Unlocked.begin_write 0 refl refl (omega arith)))
        (Unlocked.copy 0 0 refl (omega arith)))
      (Unlocked.end_write 0 1 refl (omega arith))

-- Behind the start of its call, with its one round before it.
abbrev in_loop : System
in_loop = record (fresh blank.mem) { pc = update (fresh blank.mem).pc 0 (copying 0) }

store_inside_example : (3 < 128) × (get_or (copy_byte (holding (5 ∷ [])) blank.mem 3 0) 3 0 ≡ 5)
unfolding clamp_count fetched
store_inside_example =
    store_inside jobs blank.mem in_loop 0 0 refl
      (inr (Unlocked.later Unlocked.start (Unlocked.begin_write 0 refl refl (omega arith)))) refl
      (omega arith)

others_entering : (u : ℕ) → u ≢ 0 → unguarded.pc u ≡ entering
others_entering u n = ground arith

alone_lem_example : unguarded.mem ≡ blit blank.mem 3 (arriving (holding (5 ∷ [])) blank.mem 3 0 1)
alone_lem_example =
    alone_lem jobs blank.mem 0 (omega arith) (omega arith) refl unguarded-Reach others_entering
