-- ===== src/Tests/Discord.antt =====
-- The state of one server: a channel whose name holds a dash, with one member and one message.
use mathlib.Core.Path.{subst}
use cs.Base.{
  ℕ, ◌≤◌, ◌≡◌, refl, ◌&&◌, ◌||◌, Bool, true, false, none, some, List, [], ◌∷◌, ◌++◌, reverse, arith,
  if◌then◌else◌, ◌==◌, text_eq, text_beq, length, take,
}
use cs.Base.HashSet
use cs.Base.HashMap
use cs.Base.Text.{Text, lit, starts_with_char, split, last}
use cs.Base.Decimal.{decimal, parse_usize}
use cs.Discord.{
  Message, Channel, new_channel, AppState, new_app_state, StateResult, ok, err, UserExistsFn,
  format_id, message_from, get_numeric_message_id, insert_message, create_user, user_exists,
  channel_exists, join_channel, leave_channel, send_message, send_message_known,
  replicate_send_message, get_messages, duplicate_user, invalid_username, channel_name_is_valid,
}
use cs.Discord.Numbering.{numeric-of_HasId, numeric-message_from}
use cs.Discord.Order.{find}
use cs.Discord.Insertion.{Inserted, insert_message-Inserted}
use cs.Discord.Invariant.{IsValid, IsValidChannel, IsDense, Evolves, Evolves-refl}
use cs.Discord.Users.{is_ok, create_user_lem}
use cs.Discord.Members.{is_member, messages}
use cs.Discord.Joining.{Joins, join_channel_lem}
use cs.Discord.Leaving.{Leaves, leave_channel_lem}
use cs.Discord.Members.{next_id}
use cs.Discord.Sends.{HasRoom, Sends, send_message_lem, send_message_lost}
use cs.Discord.Reading.{get_messages_pages, get_messages-send_message}
use cs.Discord.Replication.{store_all, store_all-primary, replicate-send_message}
use cs.Discord.Interleaving.{here, next, creates_user, joins, Run-IsValid}

abbrev alice : Text
alice = lit "alice"

abbrev room : Text
room = lit "#a-b"

abbrev hello : Message
hello = record { username = alice; text = lit "hello"; message_id = format_id room 0 }

abbrev channel : Channel
channel = record { users = alice ∷ []; messages = hello ∷ []; next_message_id = 1 }

abbrev server : AppState
server = record { users = alice ∷ []; channels = (room, channel) ∷ [] }

-- Every user is known, and nothing happens during the wait.
abbrev everybody : UserExistsFn
everybody u s = (true, s)

room-valid : channel_name_is_valid room ≡ true
unfolding channel_name_is_valid starts_with_char lit
room-valid = refl

get-room : HashMap.get room server.channels ≡ some channel
unfolding HashMap.get lit text_beq
get-room = refl

alice-is_member : is_member server room alice ≡ true
unfolding is_member HashSet.contains HashMap.get lit text_beq
alice-is_member = refl

channel-IsDense : IsDense room channel
channel-IsDense = (0, refl, omega arith, omega arith, tt)

channel-IsValid : IsValidChannel room channel
channel-IsValid = record {
  users_once = (unfold HashSet.contains in refl, tt);
  ids = (0, refl, omega arith, omega arith, tt);
  counted = refl;
}

server-HasRoom : HasRoom room server
server-HasRoom = record {
  dense = λ ch h.
      subst (IsDense room) {x = channel} {y = ch} (ground (arith, h, get-room)) channel-IsDense;
  room = λ ch h. ground (arith, h, get-room);
}

-- Runs.

printed : decimal 1203 ≡ lit "1203"
unfolding decimal lit
printed = refl

read : parse_usize (lit "+1203") ≡ some 1203
unfolding parse_usize lit
read = refl

too_large : parse_usize (lit "18446744073709551616") ≡ none
unfolding parse_usize lit
too_large = refl

abbrev after_second : AppState
after_second = record {
  users = alice ∷ [];
  channels =
      (
        room,
        record {
          users = alice ∷ [];
          messages = hello ∷ message_from alice (lit "again") room 1 ∷ [];
          next_message_id = 2;
        },
      )
      ∷ [];
}

second_send :
    send_message server room alice (lit "again") everybody ≡ some (after_second, ok (lit "#a-b-1"))
unfolding send_message starts_with_char last split channel_exists HashMap.contains_key HashMap.get
    HashMap.insert HashSet.contains insert_message get_numeric_message_id parse_usize message_from
    format_id decimal lit text_beq
second_send = refl

-- Theorems.

send_message_lem_example :
    (o : AppState × StateResult Text) × (send_message server room alice (lit "again") everybody
      ≡ some o)
    × Sends room alice (lit "again") server true server o.0 o.1
send_message_lem_example =
    send_message_lem server room alice (lit "again") everybody (Evolves-refl server) server-HasRoom

repeated : (j : ℕ) → find j (hello ∷ hello ∷ []) ≡ find j channel.messages
unfolding find
repeated j = ground (arith, numeric-of_HasId room 0 hello refl (omega arith))

store_all-primary_example :
    (b : Channel) × (store_all (hello ∷ hello ∷ []) new_channel ≡ some b)
    × (b.messages ≡ channel.messages)
    × (b.next_message_id ≡ channel.next_message_id)
store_all-primary_example =
    store_all-primary room channel (hello ∷ hello ∷ []) channel-IsValid
      ((0, omega arith, refl), ((0, omega arith, refl), tt)) (omega arith) repeated

replicate-send_message_example :
    (id : Text) × (p' : AppState) × (b' : AppState) × (send_message_known room alice
        (lit "again")
        server
      ≡ some (p', ok id))
    × (replicate_send_message server room alice (lit "again") id ≡ some (b', ok id))
    × (messages b' room ≡ messages p' room)
    × (next_id b' room ≡ next_id p' room)
replicate-send_message_example =
    replicate-send_message room alice (lit "again") server server channel channel get-room get-room
      refl refl channel-IsDense (omega arith) alice-is_member

-- Alice registers and joins a channel, which is made for her.
abbrev registered : AppState
registered = (create_user new_app_state alice).0

abbrev joined :
    (o : AppState × StateResult (Unit {0})) × (join_channel registered alice room everybody
      ≡ some o)
    × Joins alice room true registered o.0 o.1
joined = join_channel_lem registered alice room everybody

Run-IsValid_example : IsValid joined.0.0 × Evolves new_app_state joined.0.0
Run-IsValid_example =
    Run-IsValid {s = new_app_state} {t = joined.0.0} here
      (next (next here (creates_user alice refl)) (joins alice room everybody here joined.1))

get_messages-send_message_example :
    get_messages after_second room (some 3) none
    ≡ some (
        ok (
          record { username = alice; text = lit "again"; message_id = lit "#a-b-1" }
          ∷ take 2 (reverse (messages server room))))
get_messages-send_message_example =
    get_messages-send_message server room alice (lit "again") everybody 2 after_second
      (lit "#a-b-1") (Evolves-refl server) server-HasRoom second_send

join_channel_lem_example :
    (o : AppState × StateResult (Unit {0})) × (join_channel server (lit "bob") room everybody
      ≡ some o)
    × Joins (lit "bob") room true server o.0 o.1
join_channel_lem_example = join_channel_lem server (lit "bob") room everybody

leave_channel_lem_example :
    (o : AppState × StateResult (Unit {0})) × (leave_channel server alice room everybody ≡ some o)
    × Leaves alice room server true server o.0 o.1
leave_channel_lem_example = leave_channel_lem server alice room everybody (Evolves-refl server)

insert_message-Inserted_example :
    (r : Bool × List Message) × (insert_message hello channel.messages ≡ some r)
    × Inserted room 0 0 1 hello channel.messages r
insert_message-Inserted_example =
    insert_message-Inserted room 0 1 channel.messages hello 0 (omega arith) (omega arith)
      (omega arith) refl channel-IsDense

numeric-message_from_example :
    get_numeric_message_id (message_from alice (lit "hi") room 41) ≡ some 41
numeric-message_from_example = numeric-message_from alice (lit "hi") room 41 (omega arith)

create_user_lem_example :
    let (s', r) = create_user server alice in
    (r ≡ (
      if alice == []
      then err invalid_username
      else if user_exists server alice
      then err duplicate_user
      else ok tt))
    × ((v : Text) → user_exists s' v ≡ (user_exists server v || is_ok r && alice == v))
    × (s'.channels ≡ server.channels)
    × (is_ok r ≡ false → s' ≡ server)
create_user_lem_example = create_user_lem server alice

-- A backup that got message 1 and not message 0.
abbrev later_message : Message
later_message = record { username = alice; text = lit "hello"; message_id = format_id room 1 }

abbrev gap : Channel
gap = record { users = alice ∷ []; messages = later_message ∷ []; next_message_id = 1 }

abbrev backup : AppState
backup = record { users = alice ∷ []; channels = (room, gap) ∷ [] }

get-gap : HashMap.get room backup.channels ≡ some gap
unfolding HashMap.get lit text_beq
get-gap = refl

alice_in_gap : is_member backup room alice ≡ true
unfolding is_member HashSet.contains HashMap.get lit text_beq
alice_in_gap = refl

send_message_lost_example :
    (s' : AppState) × (send_message backup room alice (lit "gone") everybody
      ≡ some (s', ok (format_id room 1)))
    × (messages s' room ≡ messages backup room)
send_message_lost_example =
    send_message_lost backup room alice (lit "gone") everybody gap later_message refl get-gap
      room-valid alice_in_gap
      (record {
        users_once = (unfold HashSet.contains in refl, tt);
        ids = (1, refl, omega arith, omega arith, tt);
        counted = refl;
      })
      (omega arith)
      (unfold find in ground (arith, numeric-of_HasId room 1 later_message refl (omega arith)))

get_messages_pages_example :
    (get_messages server room (some 3) (some 0) ≡ some (ok ((hello ∷ []) ++ [])))
    × (length (hello ∷ []) ≤ 1)
unfolding get_messages channel_exists HashMap.contains_key HashMap.get starts_with_char lit text_beq
get_messages_pages_example =
    get_messages_pages server room 1 2 0 {p = hello ∷ []} {q = []} refl refl
