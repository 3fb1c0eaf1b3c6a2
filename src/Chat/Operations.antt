-- ===== src/Chat/Operations.antt =====
-- The operations of pa1/server/src/stateops.rs, in the order of the source. The source takes the
-- lock once for each check and once for the change; the parts of `create_user` are apart for that
-- reason.
use cs.Base.{
  unwrap_or, ℕ, ◌+◌, ◌%◌, Bool, not, Option, none, some, List, [], ◌∷◌, ◌++◌, reverse,
  if◌then◌else◌, take, drop, text_eq,
}
use cs.Base.HashSet
use cs.Base.HashSet.{HashSet}
use cs.Base.HashMap
use cs.Base.Text.{Text, starts_with_char}
use cs.Base.Decimal.{usize_mod}
use cs.Chat.Types.{
  Message, Channel, new_channel, AppState, StateError, StateResult, ok, err, state_error, Outcome,
}

abbrev pub duplicate_user : StateError
duplicate_user = state_error 400 "User already exists"

abbrev pub unknown_joiner : StateError
unknown_joiner = state_error 400 "User does not exist"

abbrev pub unknown_user : StateError
unknown_user = state_error 404 "User does not exist"

abbrev pub invalid_channel_name : StateError
invalid_channel_name = state_error 400 "Channel must start with #"

abbrev pub unknown_channel : StateError
unknown_channel = state_error 404 "Channel does not exist"

abbrev pub already_member : StateError
already_member = state_error 400 "User already in channel"

abbrev pub no_such_member : StateError
no_such_member = state_error 400 "User not in channel"

unfoldable pub get_users : AppState → List Text
get_users s = s.users

unfoldable pub user_exists : AppState → Text → Bool
user_exists s username = HashSet.contains username s.users

-- The change that `create_user` makes, under a second lock.
unfoldable pub add_user : AppState → Text → AppState
add_user s username = record s {
  users = HashSet.insert username s.users;
  user_channels = HashMap.insert username [] s.user_channels;
}

unfoldable pub create_user : AppState → Text → AppState × StateResult (Unit {0})
unfolding user_exists add_user
create_user s username =
    if user_exists s username then (s, err duplicate_user) else (add_user s username, ok tt)

unfoldable pub get_channels : AppState → List Text
get_channels s = HashMap.keys s.channels

unfoldable pub channel_name_is_valid : Text → Bool
channel_name_is_valid channel_name = starts_with_char b'#' channel_name

unfoldable pub channel_exists : AppState → Text → Bool
channel_exists s channel_name = HashMap.contains_key channel_name s.channels

-- A write through `get_mut` of a channel, and of a user's set of channels.
abbrev pub set_channel : AppState → Text → Channel → AppState
set_channel s channel_name ch = record s { channels = HashMap.insert channel_name ch s.channels }

abbrev pub set_user_channels : AppState → Text → HashSet Text → AppState
set_user_channels s username cs' = record s {
  user_channels = HashMap.insert username cs' s.user_channels;
}

-- `join_channel` from the `entry` call on.
unfoldable pub join_known : AppState → Text → Text → Outcome (Unit {0})
join_known s username channel_name =
    let (ch, channels) = HashMap.or_insert channel_name new_channel s.channels in
    let s' = record s { channels = channels } in
    if HashSet.contains username ch.users
    then some (s', err already_member)
    else let s'' =
        set_channel s' channel_name (record ch { users = HashSet.insert username ch.users }) in
      elim (HashMap.get username s''.user_channels) [
        | none ↦ none
        | some cs' ↦ some (set_user_channels s'' username (HashSet.insert channel_name cs'), ok tt)
      ]

unfoldable pub join_channel : AppState → Text → Text → Outcome (Unit {0})
unfolding join_known user_exists channel_name_is_valid
join_channel s username channel_name =
    if not (user_exists s username)
    then some (s, err unknown_joiner)
    else if not (channel_name_is_valid channel_name)
    then some (s, err invalid_channel_name)
    else join_known s username channel_name

unfoldable pub list_channel_users : AppState → Text → Option (StateResult (List Text))
unfolding channel_name_is_valid channel_exists
list_channel_users s channel_name =
    if not (channel_name_is_valid channel_name)
    then some (err invalid_channel_name)
    else if not (channel_exists s channel_name)
    then some (err unknown_channel)
    else elim (HashMap.get channel_name s.channels) [ none ↦ none | some ch ↦ some (ok ch.users) ]

-- `leave_channel` from the `get_mut` of the channel on.
unfoldable pub leave_known : AppState → Text → Text → Outcome (Unit {0})
leave_known s username channel_name = elim (HashMap.get channel_name s.channels) [
  | none ↦ none
  | some ch ↦
      if not (HashSet.contains username ch.users)
      then some (s, err no_such_member)
      else let s' =
          set_channel s channel_name (record ch { users = HashSet.remove username ch.users }) in
        elim (HashMap.get username s'.user_channels) [
          | none ↦ none
          | some cs' ↦ some (set_user_channels s' username (HashSet.remove channel_name cs'), ok tt)
        ]
]

unfoldable pub leave_channel : AppState → Text → Text → Outcome (Unit {0})
unfolding leave_known user_exists channel_name_is_valid channel_exists
leave_channel s username channel_name =
    if not (channel_name_is_valid channel_name)
    then some (s, err invalid_channel_name)
    else if not (channel_exists s channel_name)
    then some (s, err unknown_channel)
    else if not (user_exists s username)
    then some (s, err unknown_user)
    else leave_known s username channel_name

-- The loop, each call with its `unwrap`.
unfoldable pub leave_each : AppState → Text → List Text → Option AppState
leave_each s username [] = some s
leave_each s username (c ∷ cs') = elim (leave_channel s username c) [
  | none ↦ none
  | some (s', err _) ↦ none
  | some (s', ok _) ↦ leave_each s' username cs'
]

unfoldable pub leave_all_channels : AppState → Text → Option AppState
unfolding leave_each user_exists
leave_all_channels s username =
    if not (user_exists s username) then some s else elim (HashMap.get username s.user_channels) [
      | none ↦ none
      | some cs' ↦ leave_each s username cs'
    ]

-- `send_message` from the second lookup of the channel on.
unfoldable pub send_known : AppState → Text → Text → Text → Outcome ℕ
send_known s channel_name username text = elim (HashMap.get channel_name s.channels) [
  | none ↦ none
  | some ch ↦
      if not (HashSet.contains username ch.users)
      then some (s, err no_such_member)
      else let message_id = s.next_message_id in
        let s' = record s { next_message_id = (s.next_message_id + 1) % usize_mod } in
        let message : Message = record {
          username = username;
          text = text;
          message_id = message_id;
        } in
        some (
          set_channel s' channel_name (record ch { messages = ch.messages ++ message ∷ [] }),
          ok message_id,
        )
]

unfoldable pub send_message : AppState → Text → Text → Text → Outcome ℕ
unfolding send_known user_exists channel_name_is_valid channel_exists
send_message s channel_name username text =
    if not (channel_name_is_valid channel_name)
    then some (s, err invalid_channel_name)
    else if not (channel_exists s channel_name)
    then some (s, err unknown_channel)
    else if not (user_exists s username)
    then some (s, err unknown_user)
    else send_known s channel_name username text

unfoldable pub get_messages :
    AppState → Text → Option ℕ → Option ℕ → Option (StateResult (List Message))
unfolding channel_name_is_valid channel_exists
get_messages s channel_name limit offset =
    if not (channel_name_is_valid channel_name)
    then some (err invalid_channel_name)
    else if not (channel_exists s channel_name)
    then some (err unknown_channel)
    else elim (HashMap.get channel_name s.channels) [
      | none ↦ none
      | some ch ↦
          some (ok (take (unwrap_or limit 20) (drop (unwrap_or offset 0) (reverse ch.messages))))
    ]
