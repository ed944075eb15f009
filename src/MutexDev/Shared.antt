-- ===== src/MutexDev/Shared.antt =====
-- What the reader of 03-fileOperate/mutex/useMutex/app.c can see, with the mutex.
use linux_dev_note.Common.{
  ℕ, zero, suc, ◌<◌, ◌≤◌, ◌≡◌, ◌++◌, ◌⊎◌, inl, inr, refl, ap, sym, ◌∙◌, Bool, true, false, List, [],
  ◌∷◌, arith, length, subst,
}
use linux_dev_note.Common.Int.{pos}
use linux_dev_note.Common.Bytes.{slice, blit, slice-blit, length-blit}
use linux_dev_note.UserSpace.{holding}
use linux_dev_note.MutexDev.{mem_size, write}
use linux_dev_note.MutexDev.Transfer.{write_lem, read_lem, arriving-holding}
use linux_dev_note.MutexDev.Threads.{Job, Pc, copying, wrote, got, System}
use linux_dev_note.MutexDev.Locked.{
  shown, skip, lock_write, copy, unlock_write, lock_read, unlock_read, Reach, start, later,
}
use linux_dev_note.MutexDev.Order.{count, written, commit}
use linux_dev_note.MutexDev.Serial.{Reach-Inv}
use linux_dev_note.MutexDev.App.{app_job, wrbuf, rw_buff_size}

abbrev writing : Pc → Bool
writing (copying i) = true
writing wrote = true
writing _ = false

-- Only a job that writes is in a write.
writing-writes :
    {job : ℕ → Job} {mem : List ℕ} {s : System} (t : ℕ)
    → Reach job mem s
    → writing (s.pc t) ≡ true
    → (job t).writes ≡ true
writing-writes t start h = absurd (cc)
writing-writes t (later r (skip u e i)) h = ground (arith, writing-writes t r)
writing-writes t (later r (lock_write u e w i f)) h = ground (arith, writing-writes t r)
writing-writes t (later r (copy u i e l)) h = ground (arith, writing-writes t r)
writing-writes t (later r (unlock_write u i e l)) h = ground (arith, writing-writes t r)
writing-writes t (later r (lock_read u e w i f)) h = ground (arith, writing-writes t r)
writing-writes t (later r (unlock_read u e)) h = ground (arith, writing-writes t r)

wrote-writes :
    {job : ℕ → Job} {mem : List ℕ} {s : System} (t : ℕ)
    → Reach job mem s
    → 0 < written (s.pc t)
    → (job t).writes ≡ true
wrote-writes t r h = writing-writes t r (ground arith)

-- The first bytes of the memory before any write, or those of thread 0, or those of thread 1.
abbrev pub IsWhole : List ℕ → List ℕ → Type 0
IsWhole mem xs = (xs ≡ slice mem 0 rw_buff_size) ⊎ (xs ≡ wrbuf 0) ⊎ (xs ≡ wrbuf 1)

write-front :
    (xs mem : List ℕ)
    → length xs ≡ rw_buff_size
    → length mem ≡ mem_size
    → let after =
        (write (holding xs) (record { mem = mem; writecount = 0 }) rw_buff_size (pos 0)).0.mem in
      (slice after 0 rw_buff_size ≡ xs) × (length after ≡ mem_size)
write-front xs mem hx hm =
    rw
      (write_lem (holding xs) (record { mem = mem; writecount = 0 }) rw_buff_size 0 (omega arith)
        (omega arith))
      (rw (arriving-holding xs mem 0 0 rw_buff_size (sym hx)) (
        ap (slice (blit mem 0 xs) 0) (sym hx) ∙ slice-blit mem 0 xs (omega arith),
        length-blit mem 0 xs ∙ hm,
      ))

commit-front :
    (mem : List ℕ) (order : List ℕ)
    → length mem ≡ mem_size
    → ((t : ℕ) → 0 < count t order → (app_job t).writes ≡ true)
    → IsWhole mem (slice (commit app_job mem order) 0 rw_buff_size)
      × (length (commit app_job mem order) ≡ mem_size)
unfolding commit app_job
commit-front mem [] hm h = (inl refl, hm)
commit-front mem (zero ∷ ts) hm h =
    let (front, room) = commit-front mem ts hm (λ t lt. h t (omega arith)) in
    let (seen, room') = write-front (wrbuf 0) _ refl room in (inr (inl seen), room')
commit-front mem (suc zero ∷ ts) hm h =
    let (front, room) = commit-front mem ts hm (λ t lt. h t (omega arith)) in
    let (seen, room') = write-front (wrbuf 1) _ refl room in (inr (inr seen), room')
commit-front mem (suc (suc zero) ∷ ts) hm h = absurd (ground (arith, h 2))
commit-front mem (suc (suc (suc t)) ∷ ts) hm h = absurd (ground (arith, h (suc (suc (suc t)))))

count-append : (t : ℕ) (xs ys : List ℕ) → count t ys ≤ count t (xs ++ ys)
count-append t [] ys = omega arith
count-append t (x ∷ xs) ys = omega (arith, count-append t xs ys)

shown-front : (mem : List ℕ) → shown app_job 2 mem ≡ slice mem 0 rw_buff_size
unfolding app_job
shown-front mem =
    ap (λ r. r.out)
      (read_lem (holding []) (record { mem = mem; writecount = 0 }) rw_buff_size 0 (omega arith)
        (omega arith) refl)

-- With the mutex, from a memory of MEM_SIZE bytes and whatever the interleaving of the program's
-- three threads, the five bytes that the reader gets are those from before the writes, or all
-- thread 0's, or all thread 1's.
pub reader_sees_one_write :
    {s : System} (mem out : List ℕ)
    → length mem ≡ mem_size
    → Reach app_job mem s
    → s.pc 2 ≡ got out
    → IsWhole mem out
reader_sees_one_write {s} mem out hm r e =
    let v = Reach-Inv app_job mem r in
    let (since, earlier, split, seen) = v.saw 2 out e in
    let writer : (t : ℕ) → 0 < count t earlier → (app_job t).writes ≡ true = λ t lt.
      wrote-writes t r
        (omega (arith, v.counts t, ap (count t) split, count-append t since earlier)) in
    subst (IsWhole mem) (sym (seen ∙ shown-front (commit app_job mem earlier)))
      (commit-front mem earlier hm writer).0
