-- ===== src/Chat/Endpoints.antt =====
-- pa1/server/src/http_handlers.rs: the endpoints, from what axum has extracted of a request to the
-- status of the response and what goes into its JSON.
use cs.Base.{ℕ, String, Option, none, some, List, [], ◌∷◌, text_eq}
use cs.Base.HashMap
use cs.Base.HashMap.{HashMap}
use cs.Base.Http.{Header, absent, unreadable, header}
use cs.Base.Text.{Text, lit}
use cs.Base.Decimal.{parse_usize}
use cs.Chat.Types.{Message, AppState, StateError, StateResult, ok, err, state_error, Outcome}
use cs.Chat.Operations
use cs.Chat.Operations.{create_user}

pub data Content : Type 0 where
  alive : Content
  created : Text → Content
  users : List Text → Content
  channels : List Text → Content
  joined : Text → Text → Content
  channel_users : Text → List Text → Content
  left : Text → Text → Content
  -- channel, number, user and text
  sent : Text → ℕ → Text → Text → Content
  messages : Text → List Message → Content
  error : ℕ → Text → Content

pub record Response : Type 0 where
  pub status : ℕ
  pub content : Content

-- The state afterwards and the response; `none` is a panic.
abbrev pub Handled : Type 0
Handled = Option (AppState × Response)

-- `into_response` of an HttpServerError.
abbrev pub error_response : StateError → Response
error_response (status, message) = record { status = status; content = error status message }

abbrev pub json : Content → Response
json content = record { status = 200; content = content }

abbrev pub bad_request : AppState → String → Handled
bad_request s message = some (s, error_response (state_error 400 message))

-- `?` on the result of an operation.
unfoldable pub respond : {A : Type 0} → (A → Content) → Outcome A → Handled
respond f none = none
respond f (some (s, ok a)) = some (s, json (f a))
respond f (some (s, err e)) = some (s, error_response e)

-- `?` on the result of a read.
unfoldable pub respond_read :
    {A : Type 0} → AppState → (A → Content) → Option (StateResult A) → Handled
respond_read s f none = none
respond_read s f (some (ok a)) = some (s, json (f a))
respond_read s f (some (err e)) = some (s, error_response e)

-- `ExistingUser`, on the header X-User.
unfoldable pub with_user : AppState → Header → (Text → Handled) → Handled
with_user s absent f = bad_request s "Missing username header"
with_user s unreadable f = bad_request s "Invalid username header"
with_user s (header username) f = f username

-- A body that is not the expected JSON is refused.
unfoldable pub with_body : AppState → Option Text → String → (Text → Handled) → Handled
with_body s none message f = bad_request s message
with_body s (some text) message f = f text

-- A parameter of the query that is a number; one that is missing or empty is none.
unfoldable pub with_number : AppState → Option Text → String → (Option ℕ → Handled) → Handled
with_number s none message f = f none
with_number s (some []) message f = f none
with_number s (some (c ∷ t)) message f = elim (parse_usize (c ∷ t)) [
  | none ↦ bad_request s message
  | some n ↦ f (some n)
]

-- A request that reached its endpoint.
pub data Request : Type 0 where
  health : Request
  post_user : Option Text → Request
  get_users : Request
  get_channels : Request
  join_channel : Header → Text → Request
  list_channel_users : Text → Request
  leave_channel : Text → Text → Request
  send_message : Header → Text → Option Text → Request
  get_messages : Text → HashMap Text Text → Request
  not_found : Request
  method_not_allowed : Request

unfoldable pub serve : Request → AppState → Handled
unfolding respond respond_read with_user with_body with_number
serve health s = some (s, json alive)
serve (post_user body) s =
    with_body s body "Invalid request body; must be valid json with a username field"
      λ username. respond (λ _. created username) (some (create_user s username))
serve get_users s = some (s, json (users (Operations.get_users s)))
serve get_channels s = some (s, json (channels (Operations.get_channels s)))
serve (join_channel user channel_name) s = with_user s user λ username.
    respond (λ _. joined username channel_name) (Operations.join_channel s username channel_name)
serve (list_channel_users channel_name) s =
    respond_read s (channel_users channel_name) (Operations.list_channel_users s channel_name)
serve (leave_channel channel_name username) s =
    respond (λ _. left channel_name username) (Operations.leave_channel s username channel_name)
serve (send_message user channel_name body) s = with_user s user λ username.
    with_body s body "Invalid request body; must be valid json with a text field" λ text.
      respond (λ id. sent channel_name id username text)
        (Operations.send_message s channel_name username text)
serve (get_messages channel_name params) s =
    with_number s (HashMap.get (lit "limit") params)
      "Invalid limit! Limit must be a nonnegative integer"
      λ limit.
        with_number s (HashMap.get (lit "offset") params)
          "Invalid offset! Offset must be a nonnegative integer"
          λ offset.
            respond_read s (messages channel_name)
              (Operations.get_messages s channel_name limit offset)
serve not_found s = some (s, error_response (state_error 404 "Route not found"))
serve method_not_allowed s = some (s, error_response (state_error 405 "method not allowed"))
