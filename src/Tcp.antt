-- ===== src/Tcp.antt =====
-- The server and the client of 09-TCP, tcp_server.c and tcp_client.c. What the socket calls answer is
-- an argument; what is printed on stderr is left out.
pub mod Session
use linux_dev_note.Common.{
  ℕ, zero, suc, ◌≡◌, Bool, true, false, List, [], ◌∷◌, ◌++◌, Option, none, some, ltb, ◌==◌, not,
  length, if◌then◌else◌, set,
}
use linux_dev_note.Common.Bytes.{blit}
use linux_dev_note.Common.CString.{c_string}

-- the size of `buffer`, in both programs
abbrev pub buffer_size : ℕ
buffer_size = 1024

-- One turn of the server's loop: accept gives -1; or a connection whose read gives -1; or one whose
-- read gives bytes, at most the 1024 asked for.
pub data Arrival : Type 0 where
  accept_fails read_fails : Arrival
  message : List ℕ → Arrival

-- What the server comes to: it has ended with exit(1), or it has stored or printed behind `buffer`,
-- which is undefined in C, or it waits in accept. With each, the strings printed until then.
pub data ServerRun : Type 0 where
  exited overran waits : List (List ℕ) → ServerRun

abbrev pub also : List ℕ → ServerRun → ServerRun
also s (ServerRun.exited out) = ServerRun.exited (s ∷ out)
also s (ServerRun.overran out) = ServerRun.overran (s ∷ out)
also s (ServerRun.waits out) = ServerRun.waits (s ∷ out)

-- `buffer` behind the read of `xs` and the store of the final 0 at `nbytes`
unfoldable pub received : List ℕ → List ℕ → Option (List ℕ)
received buffer xs =
    if ltb (length xs) (length buffer) then some (set (blit buffer 0 xs) (length xs) 0) else none

-- `while(1)`, from what stands in `buffer`
unfoldable pub serve : List ℕ → List Arrival → ServerRun
unfolding received
serve buffer [] = ServerRun.waits []
serve buffer (accept_fails ∷ rest) = ServerRun.exited []
serve buffer (read_fails ∷ rest) = ServerRun.exited []
serve buffer (message xs ∷ rest) = elim (received buffer xs) [
  | none ↦ ServerRun.overran []
  | some buffer' ↦ elim (c_string buffer') [
    | none ↦ ServerRun.overran []
    | some s ↦ also s (serve buffer' rest)
  ]
]

-- `main` of the server, by whether socket, bind and listen succeed.
unfoldable pub server_main : Bool → Bool → Bool → List ℕ → List Arrival → ServerRun
server_main socket bind listen buffer arrivals =
    if not socket
    then ServerRun.exited []
    else if not bind
    then ServerRun.exited []
    else if not listen
    then ServerRun.exited []
    else serve buffer arrivals

-- What the client asks of the outside before it reads its line.
pub record Setup : Type 0 where
  pub argc : ℕ
  pub host_found : Bool
  pub socket_made : Bool
  pub connected : Bool

-- What the client comes to: its exit status and what it has written to the socket; `overran` where the
-- end of the string in `buffer` is searched behind it, which is undefined in C.
pub data ClientRun : Type 0 where
  stopped : ℕ → ClientRun
  sent : List ℕ → ClientRun
  overran : ClientRun

-- `buffer` behind fgets: a line is stored with its final 0, and at the end of the input nothing is.
unfoldable pub fgets_into : List ℕ → Option (List ℕ) → List ℕ
fgets_into buffer none = buffer
fgets_into buffer (some line) = blit buffer 0 (line ++ 0 ∷ [])

-- `main` of the client: `line` is what fgets gives.
unfoldable pub client_main : Setup → List ℕ → Option (List ℕ) → ClientRun
unfolding fgets_into
client_main s buffer line =
    if not (s.argc == 2)
    then ClientRun.stopped 1
    else if not s.host_found
    then ClientRun.stopped 1
    else if not s.socket_made
    then ClientRun.stopped 1
    else if not s.connected
    then ClientRun.stopped 1
    else elim (c_string (fgets_into buffer line)) [
      | none ↦ ClientRun.overran
      | some text ↦ ClientRun.sent text
    ]
