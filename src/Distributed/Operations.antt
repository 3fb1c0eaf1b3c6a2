-- ===== src/Distributed/Operations.antt =====
-- The operations of pa2/src/distributed_stateops.rs, in the order of the source.
use cs.Base.{ℕ, Bool, Option, none, some, List, [], ◌∷◌, text_eq}
use cs.Base.Text.{Text, lit}
use cs.Discord
use cs.Discord.{Message, AppState, StateResult, ok, err}
use cs.Distributed.Owners.{user_owner, channel_owner}
use cs.Distributed.Wire.{Platform, state_result_from_value, index, fields}
use cs.Distributed.Run.{M, ◌>>=◌, view, on_discord, read_discord?, run_async}
use cs.Distributed.Forward.{replicate, operation}

module _ (p : Platform) (id : Text) where
  open p use {json, hash}
  open json use {Value, Map, empty, insert, object, string, number, null, as_bool}

  -- The parameters of the requests.
  abbrev pub user_request : Text → Value
  user_request username = object (fields p ((lit "username", string username) ∷ []))

  abbrev pub channel_request : Text → Value
  channel_request channel = object (fields p ((lit "channel", string channel) ∷ []))

  abbrev pub member_request : Text → Text → Value
  member_request username channel =
      object (fields p ((lit "username", string username) ∷ (lit "channel", string channel) ∷ []))

  abbrev pub send_request : Text → Text → Text → Value
  send_request username channel text = object (
      fields p (
        (lit "username", string username)
        ∷ (lit "channel", string channel)
        ∷ (lit "text", string text)
        ∷ []))

  abbrev pub sent_request : Text → Text → Text → Text → Value
  sent_request username channel text message_id = object (
      fields p (
        (lit "username", string username)
        ∷ (lit "channel", string channel)
        ∷ (lit "text", string text)
        ∷ (lit "message_id", string message_id)
        ∷ []))

  abbrev pub optional : Option ℕ → Value
  optional none = null
  optional (some n) = number n

  abbrev pub page_request : Text → Option ℕ → Option ℕ → Value
  page_request channel limit offset = object (
      fields p (
        (lit "channel", string channel)
        ∷ (lit "limit", optional limit)
        ∷ (lit "offset", optional offset)
        ∷ []))

  unfoldable pub user_exists : Text → M Value Bool
  unfolding operation user_owner
  user_exists username =
      operation p id (user_owner hash username)
        (λ _. view (λ s. Discord.user_exists s.discord username)) (user_request username)
        (lit "user_exists") (λ v. as_bool (index p v (lit "user_exists")))

  unfoldable pub create_user : Text → M Value (StateResult (Unit {0}))
  unfolding operation replicate user_owner
  create_user username =
      operation p id (user_owner hash username)
        (λ l.
          on_discord (λ s. Discord.create_user s username)
          >>= replicate p id p.unit l (lit "create_user") (λ _. user_request username))
        (user_request username) (lit "create_user") (state_result_from_value p p.unit)

  unfoldable pub get_my_users : M Value (List Text)
  get_my_users = view (λ s. Discord.get_users s.discord)

  unfoldable pub get_my_channels : M Value (List Text)
  get_my_channels = view (λ s. Discord.get_channels s.discord)

  unfoldable pub debug_list_channel_users : Text → M Value (StateResult (List Text))
  debug_list_channel_users channel_name =
      read_discord? (λ s. Discord.list_channel_users s channel_name)

  unfoldable pub list_channel_users : Text → M Value (StateResult (List Text))
  unfolding operation channel_owner
  list_channel_users channel_name =
      operation p id (channel_owner hash channel_name)
        (λ _. read_discord? (λ s. Discord.list_channel_users s channel_name))
        (channel_request channel_name) (lit "list_channel_users")
        (state_result_from_value p p.texts)

  unfoldable pub join_channel : Text → Text → M Value (StateResult (Unit {0}))
  unfolding operation replicate channel_owner user_exists
  join_channel username channel_name =
      operation p id (channel_owner hash channel_name)
        (λ l.
          run_async (Discord.join_channel_task username channel_name) user_exists
          >>= replicate p id p.unit l (lit "join_channel")
              (λ _. member_request username channel_name))
        (member_request username channel_name) (lit "join_channel")
        (state_result_from_value p p.unit)

  unfoldable pub leave_channel : Text → Text → M Value (StateResult (Unit {0}))
  unfolding operation replicate channel_owner user_exists
  leave_channel username channel_name =
      operation p id (channel_owner hash channel_name)
        (λ l.
          (λ w.
            run_async (Discord.leave_channel_task w.server.discord username channel_name)
              user_exists w)
          >>= replicate p id p.unit l (lit "leave_channel")
              (λ _. member_request username channel_name))
        (member_request username channel_name) (lit "leave_channel")
        (state_result_from_value p p.unit)

  unfoldable pub send_message : Text → Text → Text → M Value (StateResult Text)
  unfolding operation replicate channel_owner user_exists
  send_message channel_name username text =
      operation p id (channel_owner hash channel_name)
        (λ l.
          (λ w.
            run_async (Discord.send_message_task w.server.discord channel_name username text)
              user_exists w)
          >>= replicate p id p.text l (lit "send_message")
              (sent_request username channel_name text))
        (send_request username channel_name text) (lit "send_message")
        (state_result_from_value p p.text)

  unfoldable pub debug_get_messages :
      Text → Option ℕ → Option ℕ → M Value (StateResult (List Message))
  debug_get_messages channel_name limit offset =
      read_discord? (λ s. Discord.get_messages s channel_name limit offset)

  unfoldable pub get_messages : Text → Option ℕ → Option ℕ → M Value (StateResult (List Message))
  unfolding operation channel_owner
  get_messages channel_name limit offset =
      operation p id (channel_owner hash channel_name)
        (λ _. read_discord? (λ s. Discord.get_messages s channel_name limit offset))
        (page_request channel_name limit offset) (lit "get_messages")
        (state_result_from_value p p.message_list)
