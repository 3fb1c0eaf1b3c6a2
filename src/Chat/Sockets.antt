-- ===== src/Chat/Sockets.antt =====
-- pa1/server/src/tcp_handlers.rs, `process_socket`: one connection, from what the socket delivers to
-- the answers that are written. What the other clients do to the shared state in between, and which
-- writes succeed, comes from outside.
use cs.Base.{
  Bool, if◌then◌else◌, ℕ, zero, suc, Option, none, some, List, [], ◌∷◌, ◌++◌, length, ◌≡◌,
}
use cs.Base.Text.{Text, split_once}
use cs.Chat.Types.{AppState, StateResult}
use cs.Chat.Commands.{Connection, Reply, close, send, process_line, handle_unexpected_close}

abbrev pub Answers : Type 0
Answers = List (StateResult Reply)

-- The connection, with the answers written so far, the latest first: it reads on, and holds the text
-- behind the last line; or it is over; or its task has panicked.
pub data Session : Type 0 where
  reading : Connection → Text → Answers → Session
  ended : Connection → Answers → Session
  panicked : Connection → Answers → Session

-- What is outside of the connection, when so many answers were written: what the other clients do to
-- the shared state before the connection takes its locks, and whether the socket can be written to.
pub record Environment : Type 0 where
  pub meanwhile : ℕ → AppState → AppState
  pub can_write : ℕ → Bool

module _ (e : Environment) where
  open e use {meanwhile, can_write}

  -- The connection as it finds the shared state.
  abbrev pub at_turn : Connection → Answers → Connection
  at_turn k written = record k { shared = meanwhile (length written) k.shared }

  -- The lines that have arrived. `write_all(...).unwrap()` panics when the write fails.
  unfoldable pub serve_lines : ℕ → Connection → Text → Answers → Session
  serve_lines zero k cur_line written = reading k cur_line written
  serve_lines (suc fuel) k cur_line written = elim (split_once b'\n' cur_line) [
    | none ↦ reading k cur_line written
    | some (line, rest) ↦ elim (process_line (at_turn k written) line) [
      | none ↦ panicked (at_turn k written) written
      | some (k', close) ↦ ended k' written
      | some (k', send answer) ↦
          let served = serve_lines fuel k' rest (answer ∷ written) in
          if can_write (length written) then served else panicked k' written
    ]
  ]

  -- Each line shortens the text.
  unfoldable pub serve_text : Connection → Text → Answers → Session
  unfolding serve_lines
  serve_text k text written = serve_lines (suc (length text)) k text written

  -- The user leaves all channels.
  unfoldable pub unexpected_close : Connection → Answers → Session
  unexpected_close k written = elim (handle_unexpected_close (at_turn k written)) [
    | none ↦ panicked (at_turn k written) written
    | some shared ↦ ended (record k { shared = shared }) written
  ]

-- `socket.read`: an error, or the bytes that came; none are the end.
pub data Read : Type 0 where
  failed : Read
  bytes : List ℕ → Read

-- `std::str::from_utf8`
pub record Utf8 : Type 0 where
  pub from_utf8 : List ℕ → Option Text
  pub from_utf8-append :
      (a b : List ℕ) (s t : Text)
      → from_utf8 a ≡ some s
      → from_utf8 b ≡ some t
      → from_utf8 (a ++ b) ≡ some (s ++ t)
  pub from_utf8-empty : from_utf8 [] ≡ some []

module _ (u : Utf8) (e : Environment) where
  open u use {from_utf8}

  unfoldable pub on_read : Session → Read → Session
  unfolding serve_text unexpected_close
  on_read (reading k cur_line written) failed = unexpected_close e k written
  on_read (reading k cur_line written) (bytes []) = unexpected_close e k written
  on_read (reading k cur_line written) (bytes (b ∷ bs)) = elim (from_utf8 (b ∷ bs)) [
    | none ↦ panicked k written
    | some text ↦ serve_text e k (cur_line ++ text) written
  ]
  on_read (ended k written) _ = ended k written
  on_read (panicked k written) _ = panicked k written

  unfoldable pub on_reads : Session → List Read → Session
  unfolding on_read
  on_reads s [] = s
  on_reads s (r ∷ rs) = on_reads (on_read s r) rs

  unfoldable pub process_socket : AppState → List Read → Session
  unfolding on_reads
  process_socket shared reads =
      on_reads (reading (record { shared = shared; user = none }) [] []) reads
