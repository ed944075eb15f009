-- ===== src/Tcp/Session.antt =====
-- The messages that the server of 09-TCP prints, and those that its client sends.
use linux_dev_note.Common.{
  ℕ, zero, suc, take, length-take, ◌≤◌, ◌<◌, ◌≡◌, refl, ap, ap₂, sym, ◌∙◌, true, false, List, [],
  ◌∷◌, ◌++◌, map, some, arith, length, ltb, set, length-set, append-nil, replicate,
  length-replicate,
}
use linux_dev_note.Common.Bytes.{blit, length-blit, drop-cons}
use linux_dev_note.Common.CString.{c_string, c_string-append, c_string-blit, blit-front, IsText}
use linux_dev_note.Tcp.{
  buffer_size, Arrival, accept_fails, read_fails, message, ServerRun, also, serve, Setup, ClientRun,
  client_main,
}

-- Messages of less than 1024 bytes, none of them 0.
abbrev pub AreTexts : List (List ℕ) → Type 0
AreTexts [] = Unit {0}
AreTexts (xs ∷ rest) = (IsText xs × (length xs < buffer_size)) × AreTexts rest

set-append : (xs ys : List ℕ) (y v : ℕ) → set (xs ++ y ∷ ys) (length xs) v ≡ xs ++ v ∷ ys
set-append [] ys y v = refl
set-append (x ∷ xs) ys y v = ap (λ l. x ∷ l) (set-append xs ys y v)

-- `buffer` behind a message, as a string
received-string :
    (buffer xs : List ℕ)
    → IsText xs
    → length xs < length buffer
    → c_string (set (blit buffer 0 xs) (length xs) 0) ≡ some xs
received-string buffer xs t h =
    ap c_string (
      ap (λ l. set l (length xs) 0)
        (blit-front buffer xs (omega arith) ∙ ap (λ l. xs ++ l) (drop-cons buffer (length xs) 0 h))
      ∙ set-append xs _ _ 0)
    ∙ c_string-append xs _ t

-- the strings before what comes of the rest
abbrev pub alsos : List (List ℕ) → ServerRun → ServerRun
alsos [] r = r
alsos (xs ∷ rest) r = also xs (alsos rest r)

serve-append :
    (msgs : List (List ℕ)) (rest : List Arrival) (r : ServerRun) (buffer : List ℕ)
    → length buffer ≡ buffer_size
    → AreTexts msgs
    → ((b : List ℕ) → length b ≡ buffer_size → serve b rest ≡ r)
    → serve buffer (map message msgs ++ rest) ≡ alsos msgs r
unfolding serve
serve-append [] rest r buffer e t k = k buffer e
serve-append (xs ∷ msgs) rest r buffer e t k =
    let room : ltb (length xs) (length buffer) ≡ true = ground (arith, t.0.1) in
    let kept : length (set (blit buffer 0 xs) (length xs) 0) ≡ buffer_size =
      length-set (blit buffer 0 xs) (length xs) 0 ∙ length-blit buffer 0 xs ∙ e in
    rw (serve, room, received-string buffer xs t.0.0 (omega (arith, t.0.1)))
      (ap (also xs) (serve-append msgs rest r _ kept t.1 k))

serve-overran :
    (xs : List ℕ) (rest : List Arrival)
    → buffer_size ≤ length xs
    → (b : List ℕ) → length b ≡ buffer_size
    → serve b (message xs ∷ rest) ≡ ServerRun.overran []
unfolding serve
serve-overran xs rest h b e =
    let full : ltb (length xs) (length b) ≡ false = ground arith in rw (serve, full) refl

alsos-waits : (msgs : List (List ℕ)) → alsos msgs (ServerRun.waits []) ≡ ServerRun.waits msgs
alsos-waits [] = refl
alsos-waits (xs ∷ msgs) = ap (also xs) (alsos-waits msgs)

alsos-exited : (msgs : List (List ℕ)) → alsos msgs (ServerRun.exited []) ≡ ServerRun.exited msgs
alsos-exited [] = refl
alsos-exited (xs ∷ msgs) = ap (also xs) (alsos-exited msgs)

alsos-overran : (msgs : List (List ℕ)) → alsos msgs (ServerRun.overran []) ≡ ServerRun.overran msgs
alsos-overran [] = refl
alsos-overran (xs ∷ msgs) = ap (also xs) (alsos-overran msgs)

-- From a buffer of 1024 bytes, whatever they are: messages of less than 1024 bytes, none of them 0, are
-- printed in full and in order; then the server waits for more, ends where accept or read fails,
-- whatever would come after, and stores behind its buffer at a message of 1024 bytes.
pub serve_lem :
    (buffer xs : List ℕ) (msgs : List (List ℕ)) (rest : List Arrival)
    → length buffer ≡ buffer_size
    → AreTexts msgs
    → length xs ≡ buffer_size
    → (serve buffer (map message msgs) ≡ ServerRun.waits msgs)
      × (serve buffer (map message msgs ++ accept_fails ∷ rest) ≡ ServerRun.exited msgs)
      × (serve buffer (map message msgs ++ read_fails ∷ rest) ≡ ServerRun.exited msgs)
      × (serve buffer (map message msgs ++ message xs ∷ rest) ≡ ServerRun.overran msgs)
unfolding serve
serve_lem buffer xs msgs rest e t h = (
  ap (serve buffer) (sym (append-nil (map message msgs)))
      ∙ serve-append msgs [] (ServerRun.waits []) buffer e t (λ b eb. refl)
      ∙ alsos-waits msgs,
  serve-append msgs (accept_fails ∷ rest) (ServerRun.exited []) buffer e t (λ b eb. refl)
      ∙ alsos-exited msgs,
  serve-append msgs (read_fails ∷ rest) (ServerRun.exited []) buffer e t (λ b eb. refl)
      ∙ alsos-exited msgs,
  serve-append msgs (message xs ∷ rest) (ServerRun.overran []) buffer e t
        (serve-overran xs rest (omega arith))
      ∙ alsos-overran msgs,
)

-- A run of the client in which every call before the line succeeds.
abbrev pub ready : Setup
ready = record { argc = 2; host_found = true; socket_made = true; connected = true }

client-sent :
    (buffer line : List ℕ)
    → length buffer ≡ buffer_size
    → IsText line
    → length line < buffer_size
    → client_main ready buffer (some line) ≡ ClientRun.sent line
unfolding client_main
client-sent buffer line e t h = rw (client_main, c_string-blit buffer line t (omega arith)) refl

-- What the server's one read of a client's connection gives: as TCP keeps no borders, the first `k`
-- bytes of what the client has sent, or all where there are no more.
abbrev pub arrives : ℕ → ClientRun → Arrival
arrives k (ClientRun.sent text) = message (take k text)
arrives k _ = message []

-- The line of each client, and how much of it has come when the server reads.
abbrev pub Sent : Type 0
Sent = List (List ℕ × ℕ)

abbrev pub AreLines : Sent → Type 0
AreLines [] = Unit {0}
AreLines ((line, k) ∷ rest) = (IsText line × (length line < buffer_size)) × AreLines rest

-- the fronts of the lines that have come
abbrev pub fronts : Sent → List (List ℕ)
fronts [] = []
fronts ((line, k) ∷ rest) = take k line ∷ fronts rest

abbrev pub connections : List ℕ → Sent → List Arrival
connections buffer [] = []
connections buffer ((line, k) ∷ rest) =
    arrives k (client_main ready buffer (some line)) ∷ connections buffer rest

IsText-take : (k : ℕ) (xs : List ℕ) → IsText xs → IsText (take k xs)
IsText-take zero xs t = tt
IsText-take (suc k) [] t = tt
IsText-take (suc k) (x ∷ xs) t = (t.0, IsText-take k xs t.1)

fronts-AreTexts : (l : Sent) → AreLines l → AreTexts (fronts l)
fronts-AreTexts [] t = tt
fronts-AreTexts ((line, k) ∷ rest) t =
    ((IsText-take k line t.0.0, omega (arith, length-take k line, t.0.1)), fronts-AreTexts rest t.1)

connections-fronts :
    (buffer : List ℕ) (l : Sent)
    → length buffer ≡ buffer_size
    → AreLines l
    → connections buffer l ≡ map message (fronts l)
connections-fronts buffer [] e t = refl
connections-fronts buffer ((line, k) ∷ rest) e t =
    ap₂ ◌∷◌ (ap (arrives k) (client-sent buffer line e t.0.0 t.0.1))
      (connections-fronts buffer rest e t.1)

-- Whatever the buffers of 1024 bytes of the server and of its clients hold before: from clients that
-- connect one after another, each with the line that fgets gives for such a buffer, of less than 1024
-- bytes and none of them 0, the server prints of every line, in order, the part that its one read of
-- the connection takes, whichever front of the line that is, and goes on waiting; so the whole line
-- where the read takes all of it, and never more than the line.
pub serve-client_main :
    (buffer c_buffer : List ℕ) (lines : Sent)
    → length buffer ≡ buffer_size
    → length c_buffer ≡ buffer_size
    → AreLines lines
    → serve buffer (connections c_buffer lines) ≡ ServerRun.waits (fronts lines)
serve-client_main buffer c_buffer lines e ec t =
    ap (serve buffer) (connections-fronts c_buffer lines ec t)
    ∙ (serve_lem buffer (replicate buffer_size 1) (fronts lines) [] e (fronts-AreTexts lines t)
        (length-replicate {A = ℕ} buffer_size 1)).0
