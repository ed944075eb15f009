-- ===== src/MsgQueue/Program.antt =====
-- `main` of 01-ProcessCtrl/Mesge_queues_RW.c with what msgget, fork and msgctl answer, and what is left
-- of the queue, which outlives the program: `none` where it has been removed.
use linux_dev_note.Common.{
  ℕ, ◌+◌, ◌≤◌, ◌≡◌, refl, Bool, true, List, [], Option, none, some, if◌then◌else◌, length,
}
use linux_dev_note.Common.Bytes.{blit}
use linux_dev_note.MsgQueue.{
  buf_bytes, long_bytes, QueueCalls, IsQueueCalls, ParentRun, fails, reads, hello_word, child, main,
}
use linux_dev_note.MsgQueue.Session.{passed, main-empty}

-- whether msgget gives a queue, fork a child, and msgctl removes the queue
pub record Answers : Type 0 where
  pub got : Bool
  pub forked : Bool
  pub removed : Bool

module _ (c : QueueCalls) where
  -- What the parent comes to, if it has got so far, and what is left of the queue.
  pub record Ended : Type 0 where
    pub parent_run : Option (ParentRun c)
    pub left : Option c.Queue

  -- The parent removes the queue where it has read a message.
  abbrev kept : Bool → c.Queue → ParentRun c → Option c.Queue
  kept removed q (reads text mem q') = if removed then none else some q'
  kept removed q fails = some q

  abbrev behind_child : List ℕ → c.Queue → c.Queue
  behind_child mem_w q = elim (child c mem_w q) [ none ↦ q | some q' ↦ q' ]

  unfoldable pub program : Answers → List ℕ → List ℕ → c.Queue → Ended
  program a mem_w mem_r q =
      if a.got
      then if a.forked
        then record {
          parent_run = some (main c mem_w mem_r q);
          left = kept a.removed (behind_child mem_w q) (main c mem_w mem_r q);
        }
        else record { parent_run = none; left = some q }
      else record { parent_run = none; left = some q }

  module _ (law : IsQueueCalls c) where
    -- Where the queue keeps its laws and was empty, msgget, fork and the child's msgsnd succeed, and the
    -- memory at the two arrays goes on for 8 bytes or more: the parent prints "hello word.\n"; the 263
    -- bytes at `buf_w`, 8 more than it has, stand at `buf_r`, 8 more than that has; and the queue is
    -- removed, or left empty where msgctl fails.
    pub program-empty :
        (mem_w mem_r : List ℕ) (q q' : c.Queue) (removed : Bool)
        → c.messages q ≡ []
        → buf_bytes + long_bytes ≤ length mem_w
        → buf_bytes + long_bytes ≤ length mem_r
        → child c mem_w q ≡ some q'
        → (q'' : c.Queue) × (program
              (record { got = true; forked = true; removed = removed })
              mem_w
              mem_r
              q
            ≡ record {
              parent_run = some (reads (some hello_word) (blit mem_r 0 (passed mem_w)) q'');
              left = if removed then none else some q'';
            })
          × (c.messages q'' ≡ [])
    unfolding program
    program-empty mem_w mem_r q q' removed e hw hr sent =
        let (q'', ran, none_left) = main-empty c law mem_w mem_r q q' e hw hr sent in
        (q'', rw ran refl, none_left)
