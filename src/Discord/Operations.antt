-- ===== src/Discord/Operations.antt =====
-- The operations of pa2/src/discord_stateops.rs, in the order of the source.
use cs.Base.{
  unwrap_or, ℕ, ◌+◌, ◌%◌, Bool, true, false, not, Option, none, some, List, [], ◌∷◌, reverse,
  if◌then◌else◌, take, drop, text_eq,
}
use cs.Base.HashSet
use cs.Base.HashMap
use cs.Base.Text.{Text, starts_with_char}
use cs.Base.Decimal.{usize_mod}
use cs.Discord.Types.{
  Message, Channel, new_channel, AppState, StateError, StateResult, ok, err, state_error, Panics,
  Outcome, Async, done, await_user_exists, UserExistsFn, run,
}
use cs.Discord.Messages.{message_from, insert_message}

abbrev pub invalid_username : StateError
invalid_username = state_error 400 "INVALID_USERNAME" "Empty username"

abbrev pub duplicate_user : StateError
duplicate_user = state_error 409 "DUPLICATE_USER" "User already exists"

abbrev pub duplicate_channel : StateError
duplicate_channel = state_error 409 "DUPLICATE_CHANNEL" "Channel already exists"

abbrev pub unknown_user : StateError
unknown_user = state_error 404 "UNKNOWN_USER" "User does not exist"

abbrev pub invalid_channel_name : StateError
invalid_channel_name = state_error 400 "INVALID_CHANNEL_NAME" "Channel must start with #"

abbrev pub unknown_channel : StateError
unknown_channel = state_error 404 "UNKNOWN_CHANNEL" "Channel does not exist"

abbrev pub already_member : StateError
already_member = state_error 409 "ALREADY_MEMBER" "User already in channel"

abbrev pub no_such_member : StateError
no_such_member = state_error 404 "NOT_A_MEMBER" "User not in channel"

abbrev pub not_authorized : StateError
not_authorized = state_error 403 "NOT_A_MEMBER" "User not in channel"

unfoldable pub get_users : AppState → List Text
get_users s = s.users

unfoldable pub user_exists : AppState → Text → Bool
user_exists s username = HashSet.contains username s.users

unfoldable pub create_user : AppState → Text → AppState × StateResult (Unit {0})
create_user s [] = (s, err invalid_username)
create_user s (c ∷ cs') =
    let username = c ∷ cs' in
    if HashSet.contains username s.users
    then (s, err duplicate_user)
    else (record s { users = HashSet.insert username s.users }, ok tt)

unfoldable pub get_channels : AppState → List Text
get_channels s = HashMap.keys s.channels

unfoldable pub channel_name_is_valid : Text → Bool
channel_name_is_valid channel_name = starts_with_char b'#' channel_name

unfoldable pub channel_exists : AppState → Text → Bool
channel_exists s channel_name = HashMap.contains_key channel_name s.channels

unfoldable pub create_channel : AppState → Text → AppState × StateResult (Unit {0})
unfolding channel_exists
create_channel s channel_name =
    if channel_exists s channel_name
    then (s, err duplicate_channel)
    else (record s { channels = HashMap.insert channel_name new_channel s.channels }, ok tt)

-- A write through `get_mut`.
abbrev pub set_channel : AppState → Text → Channel → AppState
set_channel s channel_name ch = record s { channels = HashMap.insert channel_name ch s.channels }

unfoldable pub join_channel_known : Text → Text → AppState → AppState × StateResult (Unit {0})
join_channel_known username channel_name s =
    let (ch, channels) = HashMap.or_insert channel_name new_channel s.channels in
    let s' = record s { channels = channels } in
    if HashSet.contains username ch.users then (s', err already_member) else (
      set_channel s' channel_name (record ch { users = HashSet.insert username ch.users }),
      ok tt,
    )

unfoldable pub join_channel_task : Text → Text → Async (Unit {0})
unfolding join_channel_known channel_name_is_valid
join_channel_task username channel_name = await_user_exists username λ known s.
    if not known
    then some (s, err unknown_user)
    else if not (channel_name_is_valid channel_name)
    then some (s, err invalid_channel_name)
    else some (join_channel_known username channel_name s)

unfoldable pub join_channel : AppState → Text → Text → UserExistsFn → Outcome (Unit {0})
unfolding join_channel_task
join_channel s username channel_name f = run (join_channel_task username channel_name) f s

unfoldable pub list_channel_users : AppState → Text → Option (StateResult (List Text))
unfolding channel_name_is_valid channel_exists
list_channel_users s channel_name =
    if not (channel_name_is_valid channel_name)
    then some (err invalid_channel_name)
    else if not (channel_exists s channel_name)
    then some (err unknown_channel)
    else elim (HashMap.get channel_name s.channels) [ none ↦ none | some ch ↦ some (ok ch.users) ]

unfoldable pub leave_channel_known : Text → Text → AppState → Outcome (Unit {0})
leave_channel_known username channel_name s = elim (HashMap.get channel_name s.channels) [
  | none ↦ none
  | some ch ↦
      if not (HashSet.contains username ch.users)
      then some (s, err no_such_member)
      else some (
        set_channel s channel_name (record ch { users = HashSet.remove username ch.users }),
        ok tt,
      )
]

unfoldable pub leave_channel_task : AppState → Text → Text → Async (Unit {0})
unfolding leave_channel_known channel_name_is_valid channel_exists
leave_channel_task s username channel_name =
    if not (channel_name_is_valid channel_name)
    then done (err invalid_channel_name)
    else if not (channel_exists s channel_name)
    then done (err unknown_channel)
    else await_user_exists username λ known s'.
      if not known
      then some (s', err unknown_user)
      else leave_channel_known username channel_name s'

unfoldable pub leave_channel : AppState → Text → Text → UserExistsFn → Outcome (Unit {0})
unfolding leave_channel_task
leave_channel s username channel_name f = run (leave_channel_task s username channel_name) f s

abbrev pub bool_to_usize : Bool → ℕ
bool_to_usize true = 1
bool_to_usize false = 0

abbrev pub add_usize : ℕ → ℕ → ℕ
add_usize a b = (a + b) % usize_mod

-- The channel after a replicated message, whose number is kept; a number that is there already is
-- not counted.
unfoldable pub store : Message → Channel → Panics Channel
store message ch = elim (insert_message message ch.messages) [
  | none ↦ none
  | some (did_insert, messages) ↦ some (record ch {
    messages = messages;
    next_message_id = add_usize ch.next_message_id (bool_to_usize did_insert);
  })
]

unfoldable pub replicate_send_message : AppState → Text → Text → Text → Text → Outcome Text
replicate_send_message s channel_name username text message_id =
    elim (HashMap.get channel_name s.channels) [
      | none ↦ none
      | some ch ↦
          elim (store (record { username = username; text = text; message_id = message_id }) ch) [
            | none ↦ none
            | some ch' ↦ some (set_channel s channel_name ch', ok message_id)
          ]
    ]

unfoldable pub send_message_known : Text → Text → Text → AppState → Outcome Text
send_message_known channel_name username text s = elim (HashMap.get channel_name s.channels) [
  | none ↦ none
  | some ch ↦
      if not (HashSet.contains username ch.users)
      then some (s, err not_authorized)
      else let message = message_from username text channel_name ch.next_message_id in
        elim (insert_message message ch.messages) [
          | none ↦ none
          | some (_, messages) ↦ some (
            set_channel s channel_name (record ch {
              messages = messages;
              next_message_id = add_usize ch.next_message_id 1;
            }),
            ok message.message_id,
          )
        ]
]

unfoldable pub send_message_task : AppState → Text → Text → Text → Async Text
unfolding send_message_known channel_name_is_valid channel_exists
send_message_task s channel_name username text =
    if not (channel_name_is_valid channel_name)
    then done (err invalid_channel_name)
    else if not (channel_exists s channel_name)
    then done (err unknown_channel)
    else await_user_exists username λ known s'.
      if not known
      then some (s', err unknown_user)
      else send_message_known channel_name username text s'

unfoldable pub send_message : AppState → Text → Text → Text → UserExistsFn → Outcome Text
unfolding send_message_task
send_message s channel_name username text f =
    run (send_message_task s channel_name username text) f s

unfoldable pub get_messages :
    AppState → Text → Option ℕ → Option ℕ → Option (StateResult (List Message))
unfolding channel_name_is_valid channel_exists
get_messages s channel_name limit offset =
    if not (channel_name_is_valid channel_name)
    then some (err invalid_channel_name)
    else if not (channel_exists s channel_name)
    then some (err unknown_channel)
    else elim (HashMap.get channel_name s.channels) [
      | none ↦ none
      | some ch ↦
          some (ok (take (unwrap_or limit 20) (drop (unwrap_or offset 0) (reverse ch.messages))))
    ]
