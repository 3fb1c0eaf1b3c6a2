-- ===== src/Distributed/Endpoints/Channels.antt =====
-- pa2/src/http_handlers.rs: the endpoints of one channel.
use cs.Base.{true, List, [], ◌∷◌, text_eq}
use cs.Base.HashMap
use cs.Base.Http.{Header}
use cs.Base.Text.{Text, lit}
use cs.Discord.{Message, state_error}
use cs.Distributed.Wire.{Platform}
use cs.Distributed.Run.{M, pure}
use cs.Distributed.Operations
use cs.Distributed.Endpoints.{
  Body, json_rejection_error, existing_user, Params, number_param, invalid_limit, invalid_offset,
  Response, respond, error_response, or_refuse, answered,
}

module _ (p : Platform) (id : Text) where
  open p use {json}
  open json use {Value, string, boolean}

  unfoldable pub join_channel : Header → Text → M Value (Response p id)
  unfolding existing_user
  join_channel user channel_name = or_refuse p id (existing_user user) λ username.
      answered p id (Operations.join_channel p id username channel_name) λ _. respond p id 200 (
        (lit "username", string username)
        ∷ (lit "channel", string channel_name)
        ∷ (lit "joined", boolean true)
        ∷ [])

  abbrev users_response : Text → List Text → Response p id
  users_response channel_name users =
      respond p id 200
        ((lit "users", p.texts.to_value users) ∷ (lit "channel", string channel_name) ∷ [])

  unfoldable pub list_channel_users : Text → M Value (Response p id)
  list_channel_users channel_name =
      answered p id (Operations.list_channel_users p id channel_name) (users_response channel_name)

  unfoldable pub debug_list_channel_users : Text → M Value (Response p id)
  debug_list_channel_users channel_name =
      answered p id (Operations.debug_list_channel_users p id channel_name)
        (users_response channel_name)

  unfoldable pub leave_channel : Text → Text → M Value (Response p id)
  leave_channel channel_name username =
      answered p id (Operations.leave_channel p id username channel_name) λ _. respond p id 200 (
        (lit "channel", string channel_name)
        ∷ (lit "username", string username)
        ∷ (lit "left", boolean true)
        ∷ [])

  unfoldable pub send_message : Header → Text → Body Text → M Value (Response p id)
  unfolding existing_user json_rejection_error
  send_message user channel_name b = or_refuse p id (existing_user user) λ username.
      or_refuse p id (json_rejection_error b (lit "text")) λ text.
        answered p id (Operations.send_message p id channel_name username text) λ message_id.
          respond p id 201 (
            (lit "channel", string channel_name)
            ∷ (lit "message_id", string message_id)
            ∷ (lit "username", string username)
            ∷ (lit "text", string text)
            ∷ [])

  abbrev pub messages_response : Text → List Message → Response p id
  messages_response channel_name messages = respond p id 200 (
      (lit "channel", string channel_name)
      ∷ (lit "messages", p.message_list.to_value messages)
      ∷ [])

  unfoldable pub debug_get_messages : Text → Params → M Value (Response p id)
  unfolding number_param
  debug_get_messages channel_name params =
      or_refuse p id (number_param (HashMap.get (lit "limit") params) invalid_limit) λ limit.
        or_refuse p id (number_param (HashMap.get (lit "offset") params) invalid_offset) λ offset.
          answered p id (Operations.debug_get_messages p id channel_name limit offset)
            (messages_response channel_name)

  unfoldable pub get_messages : Text → Params → M Value (Response p id)
  unfolding number_param
  get_messages channel_name params =
      or_refuse p id (number_param (HashMap.get (lit "limit") params) invalid_limit) λ limit.
        or_refuse p id (number_param (HashMap.get (lit "offset") params) invalid_offset) λ offset.
          answered p id (Operations.get_messages p id channel_name limit offset)
            (messages_response channel_name)

  unfoldable pub not_found : M Value (Response p id)
  not_found = pure (error_response p id (state_error 404 "UNKNOWN_PATH" "Route not found"))

  unfoldable pub method_not_allowed : M Value (Response p id)
  method_not_allowed =
      pure (error_response p id (state_error 405 "METHOD_NOT_ALLOWED" "method not allowed"))
