-- ===== src/Tests/Programs.antt =====
-- The programs over pipes, FIFOs, sockets, the message queue and shared memory at concrete inputs.
use linux_dev_note.Common.{
  ℕ, ◌≤◌, ◌≡◌, refl, arith, List, [], ◌∷◌, ◌++◌, map, none, some, take, drop, replicate, ◌⊎◌, true,
}
use linux_dev_note.Common.Bytes.{blit}
use linux_dev_note.Common.CString.{IsText}
use linux_dev_note.Common.Int.{pos}
use linux_dev_note.Thread
use linux_dev_note.Thread.Lines.{out-front}
use linux_dev_note.Pipe.Layer.{PipeCalls, IsPipeCalls}
use linux_dev_note.Pipe.{
  System, Step, Reach, start, later, write_first, child_close_write, child_read, second, got, hello,
  pipe_text, printed,
}
use linux_dev_note.Pipe.Safety.{child-printed}
use linux_dev_note.Pipe.Progress.{IsFinal, Steps, none_yet, one_more, progress}
use linux_dev_note.Fifo.Queue.{writers, readers, said, readers-writers}
use linux_dev_note.Tcp.{accept_fails, read_fails, message, ServerRun, serve}
use linux_dev_note.Tcp.Session.{serve_lem, serve-client_main, connections}
use linux_dev_note.MsgQueue
use linux_dev_note.MsgQueue.{QueueCalls, IsQueueCalls, Message, reads, hello_word}
use linux_dev_note.MsgQueue.Session.{passed}
use linux_dev_note.MsgQueue.Program.{program-empty}

-- A pipe with room for everything.
abbrev pipes : PipeCalls
pipes = record {
  Pipe = List ℕ;
  contents = λ p. p;
  push = λ p xs. some (p ++ xs);
  pull = λ p n. (take n p, drop n p);
}

pipes_law : IsPipeCalls pipes
pipes_law = record {
  push_whole = λ p p' xs e. cc;
  push_room = λ p xs h. (p ++ xs, refl);
  pull_out = λ p n. refl;
  pull_rest = λ p n. refl;
}

-- The child has read between the parent's writes.
abbrev half : System pipes
half = record { pipe = []; parent = second; child = got hello }

half-Reach : Reach pipes [] half
half-Reach =
    later (later (later start (write_first hello refl refl refl)) (child_close_write refl))
      (child_read refl (omega arith))

child-printed_example :
    (printed hello ≡ some (5, some hello)) ⊎ (printed hello ≡ some (10, some (hello ++ pipe_text)))
child-printed_example = child-printed pipes pipes_law hello refl half-Reach refl

half-Steps : Steps pipes [] 3 half
half-Steps =
    one_more
      (one_more (one_more none_yet (write_first hello refl refl refl)) (child_close_write refl))
      (child_read refl (omega arith))

progress_example :
    (3 ≤ 7) × (IsFinal half.parent half.child ⊎ ((u : System pipes) × Step pipes half u))
progress_example = progress pipes pipes_law refl half-Steps

abbrev ab : List ℕ
ab = b'a' ∷ b'b' ∷ []

abbrev c_d : List ℕ
c_d = b'c' ∷ b'd' ∷ []

ab-IsText : IsText ab
ab-IsText = ((λ e. cc), ((λ e. cc), tt))

c_d-IsText : IsText c_d
c_d-IsText = ((λ e. cc), ((λ e. cc), tt))

abbrev stale : ℕ → List ℕ
stale n = replicate n 7

readers-writers_example :
    (p' : List ℕ) × (writers pipes (stale 100) [] (ab ∷ c_d ∷ []) ≡ some p')
    × (readers pipes p' 2 ≡ said pipes (ab ∷ c_d ∷ []))
readers-writers_example =
    readers-writers (stale 100) refl pipes pipes_law (ab ∷ c_d ∷ []) [] refl
      ((ab-IsText, omega arith), ((c_d-IsText, omega arith), tt)) (omega arith)

serve_lem_example :
    (serve (stale 1024) (map message (ab ∷ [])) ≡ ServerRun.waits (ab ∷ []))
    × (serve (stale 1024) (map message (ab ∷ []) ++ accept_fails ∷ []) ≡ ServerRun.exited (ab ∷ []))
    × (serve (stale 1024) (map message (ab ∷ []) ++ read_fails ∷ []) ≡ ServerRun.exited (ab ∷ []))
    × (serve (stale 1024) (map message (ab ∷ []) ++ message (stale 1024) ∷ [])
        ≡ ServerRun.overran (ab ∷ []))
serve_lem_example =
    serve_lem (stale 1024) (stale 1024) (ab ∷ []) [] refl ((ab-IsText, omega arith), tt) refl

serve-client_main_example :
    serve (stale 1024) (connections (stale 1024) ((ab, 1) ∷ (c_d, 100) ∷ []))
    ≡ ServerRun.waits ((b'a' ∷ []) ∷ c_d ∷ [])
serve-client_main_example =
    serve-client_main (stale 1024) (stale 1024) ((ab, 1) ∷ (c_d, 100) ∷ []) refl refl
      ((ab-IsText, omega arith), ((c_d-IsText, omega arith), tt))

-- A queue with room for everything.
abbrev queues : QueueCalls
queues = record {
  Queue = List Message;
  messages = λ q. q;
  send = λ q m. some (q ++ m ∷ []);
  receive = λ q. elim q [ [] ↦ none | m ∷ ms ↦ some (m, ms) ];
}

queues_law : IsQueueCalls queues
queues_law = record {
  send_last = λ q q' m e. cc;
  receive_first = λ q m ms e. (ms, rw e refl, refl);
}

abbrev sent : List Message
sent = MsgQueue.taken (blit (stale 263) 0 (hello_word ++ 0 ∷ [])) ∷ []

program-empty_example :
    (q'' : List Message) × (MsgQueue.Program.program queues
        (record { got = true; forked = true; removed = true })
        (stale 263)
        (stale 300)
        []
      ≡ record {
        parent_run = some (reads (some hello_word) (blit (stale 300) 0 (passed (stale 263))) q'');
        left = none;
      })
    × (q'' ≡ [])
unfolding MsgQueue.child
program-empty_example =
    program-empty queues queues_law (stale 263) (stale 300) [] sent true refl (omega arith)
      (omega arith) refl

-- `main` has returned before the thread has printed anything.
abbrev cut_off : Thread.Process
cut_off = record { main = Thread.returned (pos 0); main_printed = 1; next = 0; out = [] }

cut_off-Reach : Thread.Reach cut_off
cut_off-Reach =
    Thread.later (Thread.later (Thread.later Thread.start (Thread.made refl)) (Thread.greets refl))
      (Thread.returns refl)

out-front_example :
    ([]
      ≡ take 0 (
          Thread.thread_id
          ∷ Thread.process_pid
          ∷ Thread.menber_a 4
          ∷ Thread.menber_s Thread.sample_code
          ∷ []))
    × ((w : Thread.Process) × Thread.Reach w
        × (w.main ≡ Thread.returned (pos 0))
        × (w.out ≡ take 3 (Thread.create Thread.filled)))
out-front_example = out-front 3 (omega arith) cut_off-Reach
