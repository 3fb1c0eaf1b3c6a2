-- ===== src/Tests/Chat.antt =====
-- Runs of the single server, and its theorems at inputs that meet their hypotheses.
use cs.Base.{
  ℕ, ◌≡◌, ◌⊎◌, refl, none, true, false, not, some, List, [], ◌∷◌, arith, if◌then◌else◌, text_eq,
  length,
}
use cs.Base.HashSet
use cs.Base.Text.{Text, lit, starts_with_char, trim}
use cs.Chat.{
  AppState, new_app_state, StateResult, ok, err, user_exists, add_user, create_user, join_channel,
  leave_channel, leave_all_channels, send_message, channel_name_is_valid, channel_exists,
  unknown_joiner, invalid_channel_name, already_member, unknown_channel, unknown_user,
  no_such_member,
}
use cs.Chat.Index.{is_member, IsIndexed, new_app_state-IsIndexed}
use cs.Chat.Users.{create_user_lem}
use cs.Chat.Changes.{Moves, join_channel_both_views, leave_channel_both_views}
use cs.Chat.Departure.{Leaves, leave_all_channels_lem, create_user_race}
use cs.Chat.History.{Sends, send_message_numbered}
use cs.Base.Http.{header}
use cs.Chat.Endpoints
use cs.Chat.Endpoints.{serve}
use cs.Chat.Serving.{Answers, serve_lem}
use cs.Chat.Commands.{Connection, process_line}
use cs.Chat.Connections.{IsConnection}
use cs.Chat.Lines.{lacks_argument, Serves, process_line_lem}
use cs.Chat.Runs.{Call, creates, joins, sends, departs, after, IsSound, after-IsSound}

abbrev ann : Text
ann = lit "ann"

abbrev hall : Text
hall = lit "#hall"

abbrev day : List Call
day = departs ann ∷ sends hall ann (lit "hi") ∷ joins ann hall ∷ creates ann ∷ []

abbrev with_ann : AppState
with_ann = (create_user new_app_state ann).0

with_ann-IsIndexed : IsIndexed with_ann
with_ann-IsIndexed = (create_user_lem new_app_state ann new_app_state-IsIndexed).5

after-IsSound_example : (s : AppState) × (after day ≡ some s) × IsSound (length day) s
after-IsSound_example = after-IsSound day (omega arith)

leave_all_channels_lem_example :
    (s' : AppState) × (leave_all_channels with_ann ann ≡ some s')
    × Leaves ann (λ c. true) with_ann s'
leave_all_channels_lem_example = leave_all_channels_lem with_ann ann with_ann-IsIndexed

join_channel_both_views_example :
    (o : AppState × StateResult (Unit {0})) × (join_channel with_ann ann hall ≡ some o)
    × (o.1 ≡ (
        if not (user_exists with_ann ann)
        then err unknown_joiner
        else if not (channel_name_is_valid hall)
        then err invalid_channel_name
        else if is_member with_ann hall ann
        then err already_member
        else ok tt))
    × Moves ann hall true with_ann o.0 o.1
    × IsIndexed o.0
join_channel_both_views_example = join_channel_both_views with_ann ann hall with_ann-IsIndexed

leave_channel_both_views_example :
    (o : AppState × StateResult (Unit {0})) × (leave_channel with_ann ann hall ≡ some o)
    × (o.1 ≡ (
        if not (channel_name_is_valid hall)
        then err invalid_channel_name
        else if not (channel_exists with_ann hall)
        then err unknown_channel
        else if not (user_exists with_ann ann)
        then err unknown_user
        else if not (is_member with_ann hall ann)
        then err no_such_member
        else ok tt))
    × Moves ann hall false with_ann o.0 o.1
    × IsIndexed o.0
leave_channel_both_views_example = leave_channel_both_views with_ann ann hall with_ann-IsIndexed

send_message_numbered_example :
    (o : AppState × StateResult ℕ) × (send_message with_ann hall ann (lit "hi") ≡ some o)
    × Sends hall ann (lit "hi") with_ann o.0 o.1
send_message_numbered_example = send_message_numbered with_ann hall ann (lit "hi")

nobody : user_exists new_app_state ann ≡ false
unfolding user_exists HashSet.contains
nobody = refl

hall-valid : channel_name_is_valid hall ≡ true
unfolding channel_name_is_valid starts_with_char lit
hall-valid = refl

create_user_race_example :
    (t : AppState) × (join_channel (add_user new_app_state ann) ann hall ≡ some (t, ok tt))
    × (leave_all_channels (add_user t ann) ann ≡ some (add_user t ann))
    × (is_member (add_user t ann) hall ann ≡ true)
create_user_race_example =
    create_user_race new_app_state ann hall new_app_state-IsIndexed nobody hall-valid

-- Ann's connection, before she logs in.
abbrev connection : Connection
connection = record { shared = with_ann; user = none }

connection-IsConnection : IsConnection connection
connection-IsConnection = record { indexed = with_ann-IsIndexed; known = λ u e. cc }

process_line_lem_example :
    (lacks_argument (trim (lit "SEND ")) ≡ true) × (process_line connection (lit "SEND ") ≡ none)
    ⊎ ((lacks_argument (trim (lit "SEND ")) ≡ false)
        × Serves (process_line connection (lit "SEND ")))
process_line_lem_example = process_line_lem connection (lit "SEND ") connection-IsConnection

-- A message of somebody who is not there.
serve_lem_example :
    Answers new_app_state
      (serve (Endpoints.send_message (header ann) hall (some (lit "hi"))) new_app_state)
serve_lem_example =
    serve_lem (Endpoints.send_message (header ann) hall (some (lit "hi"))) new_app_state
      new_app_state-IsIndexed
