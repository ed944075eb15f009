-- ===== src/MsgQueue/Session.antt =====
-- What the parent of 01-ProcessCtrl/Mesge_queues_RW.c reads and prints.
use linux_dev_note.Common.{
  ℕ, ◌+◌, ◌≤◌, ◌≡◌, ap, sym, ◌∙◌, List, [], ◌∷◌, ◌++◌, some, length, take, drop, arith, length-take,
}
use linux_dev_note.Common.Bytes.{blit, slice, slice-append}
use linux_dev_note.Common.CString.{c_string, c_string-append, blit-front}
use linux_dev_note.MsgQueue.{
  buf_bytes, long_bytes, Message, QueueCalls, IsQueueCalls, hello_word, taken, child, parent, main,
  reads,
}

-- the bytes that go through the queue: `buf_w` and the 8 bytes behind it
abbrev pub passed : List ℕ → List ℕ
passed mem_w = slice (blit mem_w 0 (hello_word ++ 0 ∷ [])) 0 263

taken-passed :
    (mem_w : List ℕ)
    → (taken (blit mem_w 0 (hello_word ++ 0 ∷ []))).mtype
        ++ (taken (blit mem_w 0 (hello_word ++ 0 ∷ []))).text
      ≡ passed mem_w
unfolding taken
taken-passed mem_w = sym (slice-append (blit mem_w 0 (hello_word ++ 0 ∷ [])) 0 8 255)

passed-string :
    (mem_w mem_r : List ℕ)
    → buf_bytes + long_bytes ≤ length mem_w
    → buf_bytes + long_bytes ≤ length mem_r
    → c_string (blit mem_r 0 (passed mem_w)) ≡ some hello_word
passed-string mem_w mem_r hw hr =
    ap c_string (
      blit-front mem_r (passed mem_w)
        (omega (arith, length-take 263 (blit mem_w 0 (hello_word ++ 0 ∷ []))))
      ∙ ap (λ l. take 263 l ++ drop (length (passed mem_w)) mem_r)
          (blit-front mem_w (hello_word ++ 0 ∷ []) (omega arith)))
    ∙ c_string-append hello_word _ (omega arith)

module _ (c : QueueCalls) (law : IsQueueCalls c) where
  -- Where the queue keeps its laws and was empty, the child can send, and the memory at the two
  -- arrays goes on for 8 bytes or more: the parent prints "hello word.\n", and leaves the queue
  -- empty; and the 263 bytes at `buf_w`, 8 more than it has, stand at `buf_r`, 8 more than that
  -- has.
  pub main-empty :
      (mem_w mem_r : List ℕ) (q q' : c.Queue)
      → c.messages q ≡ []
      → buf_bytes + long_bytes ≤ length mem_w
      → buf_bytes + long_bytes ≤ length mem_r
      → child c mem_w q ≡ some q'
      → (q'' : c.Queue) × (main c mem_w mem_r q
          ≡ reads (some hello_word) (blit mem_r 0 (passed mem_w)) q'')
        × (c.messages q'' ≡ [])
  unfolding main child parent
  main-empty mem_w mem_r q q' e hw hr sent =
      let m : Message = taken (blit mem_w 0 (hello_word ++ 0 ∷ [])) in
      let queued : c.messages q' ≡ m ∷ [] = law.send_last q q' m sent ∙ ap (λ ms. ms ++ m ∷ []) e in
      let (q'', got, none_left) = law.receive_first q' m [] queued in
      (
        q'',
        rw (main, sent, parent, got)
            (ap (λ l. reads (c_string (blit mem_r 0 l)) (blit mem_r 0 l) q'') (taken-passed mem_w)
              ∙ ap (λ s. reads s (blit mem_r 0 (passed mem_w)) q'')
                  (passed-string mem_w mem_r hw hr)),
        none_left,
      )
