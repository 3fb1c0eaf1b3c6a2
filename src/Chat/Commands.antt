-- ===== src/Chat/Commands.antt =====
-- pa1/server/src/tcp_handlers.rs: the commands of one connection, in the order of the source. The
-- text of a reply is left to serde_json; a reply here is what goes into it.
use cs.Base.{ℕ, Option, none, some, List, [], ◌∷◌, if◌then◌else◌, String}
use cs.Base.Text.{Text, lit, split, split_once, starts_with, trim}
use cs.Base.Decimal.{parse_usize}
use cs.Chat.Types.{Message, AppState, StateError, StateResult, ok, err, state_error, Outcome}
use cs.Chat.Operations.{
  create_user, user_exists, join_channel, leave_channel, leave_all_channels, get_channels,
  list_channel_users, send_message, get_messages,
}

-- `TcpServerStateInner`.
pub record Connection : Type 0 where
  pub shared : AppState
  pub user : Option Text

pub data Reply : Type 0 where
  registered : Text → Reply
  logged_in : Text → Reply
  logged_out : Text → Reply
  joined : Text → Text → Reply
  left : Text → Text → Reply
  channels : List Text → Reply
  users : Text → List Text → Reply
  sent : ℕ → Reply
  history : List Message → Reply

-- The connection afterwards and the answer; `none` is a panic.
abbrev pub Handled : Type 0
Handled = Option (Connection × StateResult Reply)

abbrev pub bad_request : String → StateError
bad_request message = state_error 400 message

-- `?` on the result of an operation.
unfoldable pub reply_with : {A : Type 0} → Connection → (A → Reply) → Outcome A → Handled
reply_with k f none = none
reply_with k f (some (s, ok a)) = some (record k { shared = s }, ok (f a))
reply_with k f (some (s, err e)) = some (record k { shared = s }, err e)

-- `?` on the result of a read.
unfoldable pub reply_read :
    {A : Type 0} → Connection → (A → Reply) → Option (StateResult A) → Handled
reply_read k f none = none
reply_read k f (some (ok a)) = some (k, ok (f a))
reply_read k f (some (err e)) = some (k, err e)

-- A test that returns an error early, with what it found for the rest.
unfoldable pub or_refuse {ℓ} :
    {A : Type ℓ} → Connection → Option A → String → (A → Handled) → Handled
or_refuse k none message f = some (k, err (bad_request message))
or_refuse k (some a) message f = f a

-- `let Some(username) = state.user.clone() else`.
abbrev pub with_user : Connection → (Text → Handled) → Handled
with_user k f = or_refuse k k.user "User is not logged in" f

-- `unwrap`.
unfoldable pub unwrap {ℓ} : {A : Type ℓ} → Option A → (A → Handled) → Handled
unwrap none f = none
unwrap (some a) f = f a

-- The last of exactly two, and of exactly three, words.
abbrev pub word_of_two : List Text → Option Text
word_of_two (a ∷ b ∷ []) = some b
word_of_two _ = none

abbrev pub word_of_three : List Text → Option Text
word_of_three (a ∷ b ∷ c ∷ []) = some c
word_of_three _ = none

abbrev pub only_word : List Text → Option Text
only_word (a ∷ []) = some a
only_word _ = none

unfoldable pub handle_register : Connection → Text → Handled
handle_register k line =
    or_refuse k (word_of_two (split b' ' line))
      "Invalid register command; expected `REGISTER <username>`"
      λ username. reply_with k (λ _. registered username) (some (create_user k.shared username))

abbrev pub login_as : Connection → Text → Handled
login_as k username =
    if user_exists k.shared username
    then some (record k { user = some username }, ok (logged_in username))
    else some (k, err (bad_request "User does not exist"))

unfoldable pub log_in : Connection → Text → Option Text → Handled
log_in k line (some _) = some (k, err (bad_request "Already logged in"))
log_in k line none =
    or_refuse k (word_of_two (split b' ' line)) "Invalid login command; expected `LOGIN <username>`"
      (login_as k)

unfoldable pub handle_login : Connection → Text → Handled
handle_login k line = log_in k line k.user

unfoldable pub handle_logout : Connection → Text → Handled
handle_logout k line =
    or_refuse k (only_word (split b' ' line)) "Invalid logout command; expected `LOGOUT`"
      λ _. with_user k λ username. some (record k { user = none }, ok (logged_out username))

unfoldable pub handle_join : Connection → Text → Handled
handle_join k line =
    or_refuse k (word_of_two (split b' ' line)) "Invalid join command; expected `JOIN <channel>`"
      λ channel. with_user k λ username.
        reply_with k (λ _. joined channel username) (join_channel k.shared username channel)

unfoldable pub handle_leave : Connection → Text → Handled
handle_leave k line =
    or_refuse k (word_of_two (split b' ' line)) "Invalid leave command; expected `LEAVE <channel>`"
      λ channel. with_user k λ username.
        reply_with k (λ _. left channel username) (leave_channel k.shared username channel)

unfoldable pub handle_list_channels : Connection → Text → Handled
handle_list_channels k line =
    or_refuse k (word_of_two (split b' ' line))
      "Invalid list channels command; expected `LIST CHANNELS`"
      λ _. some (k, ok (channels (get_channels k.shared)))

unfoldable pub handle_list_users : Connection → Text → Handled
handle_list_users k line =
    or_refuse k (word_of_three (split b' ' line))
      "Invalid list users command; expected `LIST USERS <channel>`"
      λ channel. reply_read k (users channel) (list_channel_users k.shared channel)

unfoldable pub handle_send : Connection → Text → Handled
handle_send k line = unwrap (split_once b' ' line) λ (_, parts).
    or_refuse k (split_once b' ' parts) "Invalid send command; expected `SEND <channel> <message>`"
      λ (channel, message).
        with_user k λ username. reply_with k sent (send_message k.shared channel username message)

-- The channel and the limit of a history command.
unfoldable pub history_request : Text → Option (Text × Option ℕ)
history_request parts = elim (split_once b' ' parts) [
  | some (channel, limit) ↦ elim (parse_usize limit) [
    | none ↦ none
    | some n ↦ some (channel, some n)
  ]
  | none ↦ some (trim parts, none)
]

unfoldable pub handle_history : Connection → Text → Handled
unfolding history_request
handle_history k line = unwrap (split_once b' ' line) λ (_, parts).
    or_refuse k (history_request parts) "Invalid limit! Limit must be a nonnegative integer"
      λ (channel, limit). reply_read k history (get_messages k.shared channel limit none)

pub data SocketOperation : Type 0 where
  close : SocketOperation
  send : StateResult Reply → SocketOperation

abbrev pub sending : Handled → Option (Connection × SocketOperation)
sending none = none
sending (some (k, r)) = some (k, send r)

-- The choice of the command, on the line as received.
unfoldable pub process_line : Connection → Text → Option (Connection × SocketOperation)
unfolding handle_register handle_login handle_logout handle_join handle_leave handle_list_channels
    handle_list_users handle_send handle_history
process_line k received =
    let line = trim received in
    if starts_with (lit "REGISTER") line
    then sending (handle_register k line)
    else if starts_with (lit "LOGIN") line
    then sending (handle_login k line)
    else if starts_with (lit "LOGOUT") line
    then sending (handle_logout k line)
    else if starts_with (lit "JOIN") line
    then sending (handle_join k line)
    else if starts_with (lit "LEAVE") line
    then sending (handle_leave k line)
    else if starts_with (lit "LIST CHANNELS") line
    then sending (handle_list_channels k line)
    else if starts_with (lit "LIST USERS") line
    then sending (handle_list_users k line)
    else if starts_with (lit "SEND") line
    then sending (handle_send k line)
    else if starts_with (lit "HISTORY") line
    then sending (handle_history k line)
    else if starts_with (lit "QUIT") line
    then some (k, close)
    else some (k, send (err (bad_request "Unknown command")))

-- The connection fails or ends without QUIT.
unfoldable pub handle_unexpected_close : Connection → Option AppState
handle_unexpected_close k = elim k.user [
  | none ↦ some k.shared
  | some username ↦ leave_all_channels k.shared username
]
