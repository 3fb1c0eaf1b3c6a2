-- ===== src/Distributed/Requests.antt =====
-- `receive_callback`: what a server does with a request of another server.
use cs.Base.{Bool, true, if◌then◌else◌, ◌==◌, text_eq}
use cs.Base.Text.{Text, lit}
use cs.Discord
use cs.Discord.{AppState, StateResult, ok, err}
use cs.Distributed.Wire.{Platform, Serde, state_result_to_value, index}
use cs.Distributed.Run.{panicked, M, ◌>>=◌, pure, unwrap, view, on_discord, on_discord?, run_async}
use cs.Distributed.Operations

module _ (p : Platform) (id : Text) where
  open p use {json}
  open json use {Value, Map, empty, insert, object, boolean, as_str, as_u64}

  -- `request[key].as_str().unwrap()`
  unfoldable pub str_field : Value → Text → M Value Text
  str_field request key = unwrap (as_str (index p request key))

  -- `state_result_to_value` of what an operation returns.
  unfoldable pub answer_with : {A : Type 0} → Serde json A → M Value (StateResult A) → M Value Value
  answer_with c m = m >>= λ r. pure (state_result_to_value p c r)

  unfoldable pub everybody : Text → M Value Bool
  everybody username = pure true

  unfoldable pub replicate_create_user : Value → M Value Value
  unfolding str_field answer_with
  replicate_create_user request = do
    username ← str_field request (lit "username")
    answer_with p.unit (on_discord (λ s. Discord.create_user s username))

  unfoldable pub replicate_join_channel : Value → M Value Value
  unfolding str_field answer_with everybody
  replicate_join_channel request = do
    username ← str_field request (lit "username")
    channel_name ← str_field request (lit "channel")
    answer_with p.unit (run_async (Discord.join_channel_task username channel_name) everybody)

  unfoldable pub replicate_leave_channel : Value → M Value Value
  unfolding str_field answer_with everybody
  replicate_leave_channel request = do
    username ← str_field request (lit "username")
    channel_name ← str_field request (lit "channel")
    answer_with p.unit λ w.
        run_async (Discord.leave_channel_task w.server.discord username channel_name) everybody w

  unfoldable pub replicate_message : Value → M Value Value
  unfolding str_field answer_with
  replicate_message request = do
    username ← str_field request (lit "username")
    channel_name ← str_field request (lit "channel")
    text ← str_field request (lit "text")
    message_id ← str_field request (lit "message_id")
    answer_with p.text
        (on_discord? (λ s. Discord.replicate_send_message s channel_name username text message_id))

  unfoldable pub receive_replicated : Value → M Value Value
  unfolding str_field replicate_create_user replicate_join_channel replicate_leave_channel
      replicate_message
  receive_replicated request = str_field request (lit "type") >>= λ kind.
      if kind == lit "create_user"
      then replicate_create_user request
      else if kind == lit "join_channel"
      then replicate_join_channel request
      else if kind == lit "leave_channel"
      then replicate_leave_channel request
      else if kind == lit "send_message"
      then replicate_message request
      else λ w. panicked

  unfoldable pub answer_user_exists : Value → M Value Value
  unfolding str_field
  answer_user_exists request = do
    username ← str_field request (lit "username")
    exists ← view (λ s. Discord.user_exists s.discord username)
    pure (object (insert empty (lit "user_exists") (boolean exists)))

  unfoldable pub answer_create_user : Value → M Value Value
  unfolding str_field answer_with
  answer_create_user request = do
    username ← str_field request (lit "username")
    answer_with p.unit (Operations.create_user p id username)

  unfoldable pub answer_join_channel : Value → M Value Value
  unfolding str_field answer_with
  answer_join_channel request = do
    username ← str_field request (lit "username")
    channel_name ← str_field request (lit "channel")
    answer_with p.unit (Operations.join_channel p id username channel_name)

  unfoldable pub answer_list_channel_users : Value → M Value Value
  unfolding str_field answer_with
  answer_list_channel_users request = do
    channel_name ← str_field request (lit "channel")
    answer_with p.texts (Operations.list_channel_users p id channel_name)

  unfoldable pub answer_leave_channel : Value → M Value Value
  unfolding str_field answer_with
  answer_leave_channel request = do
    username ← str_field request (lit "username")
    channel_name ← str_field request (lit "channel")
    answer_with p.unit (Operations.leave_channel p id username channel_name)

  unfoldable pub answer_send_message : Value → M Value Value
  unfolding str_field answer_with
  answer_send_message request = do
    username ← str_field request (lit "username")
    channel_name ← str_field request (lit "channel")
    text ← str_field request (lit "text")
    answer_with p.text (Operations.send_message p id channel_name username text)

  unfoldable pub answer_get_messages : Value → M Value Value
  unfolding str_field answer_with
  answer_get_messages request = do
    channel_name ← str_field request (lit "channel")
    answer_with p.message_list (
        Operations.get_messages p id channel_name (as_u64 (index p request (lit "limit")))
          (as_u64 (index p request (lit "offset"))))

  -- The kinds, in the order of the source; a kind that is not known panics.
  unfoldable pub receive_callback : Text → Value → M Value Value
  unfolding answer_user_exists answer_create_user answer_join_channel answer_list_channel_users
      answer_leave_channel answer_send_message answer_get_messages receive_replicated answer_with
  receive_callback kind request =
      if kind == lit "user_exists"
      then answer_user_exists request
      else if kind == lit "create_user"
      then answer_create_user request
      else if kind == lit "get_users"
      then answer_with p.texts (view (λ s. ok (Discord.get_users s.discord)))
      else if kind == lit "get_channels"
      then answer_with p.texts (view (λ s. ok (Discord.get_channels s.discord)))
      else if kind == lit "join_channel"
      then answer_join_channel request
      else if kind == lit "list_channel_users"
      then answer_list_channel_users request
      else if kind == lit "leave_channel"
      then answer_leave_channel request
      else if kind == lit "send_message"
      then answer_send_message request
      else if kind == lit "get_messages"
      then answer_get_messages request
      else if kind == lit "replicate"
      then receive_replicated (index p request (lit "request"))
      else λ w. panicked
