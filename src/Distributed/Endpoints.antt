-- ===== src/Distributed/Endpoints.antt =====
-- pa2/src/http_handlers.rs: the endpoints of a server, from what axum has extracted of a request to
-- the status and the JSON of the response.
pub mod Channels
pub mod Pages
use cs.Base.{
  if◌then◌else◌, text_eq, ℕ, Bool, true, false, not, Option, none, some, List, [], ◌∷◌, ◌++◌, map,
  String, unwrap_or,
}
use cs.Base.HashSet
use cs.Base.HashMap
use cs.Base.HashMap.{HashMap}
use cs.Base.Http.{Header, absent, unreadable, header}
use cs.Base.Text.{Text, lit}
use cs.Base.Decimal.{parse_usize}
use cs.Discord.{StateError, StateResult, ok, err, state_error}
use cs.Distributed.Wire.{Platform, Serde, fields}
use cs.Distributed.Run.{Server, World, Result, returned, panicked, M, ◌>>=◌, pure, view}
use cs.Distributed.Operations
use cs.Distributed.Merge
use cs.Distributed.Merge.{get_server_states}

-- The JSON body of a request: the value, or axum's reason to reject it, the second with its text.
pub data Body (A : Type 0) : Type 0 where
  body : A → Body A
  json_data_error : Body A
  rejected : Text → Body A

-- What a `Result` with `?` stops with.
pub data Checked (A : Type 0) : Type 0 where
  fine : A → Checked A
  refuse : StateError → Checked A

unfoldable pub json_rejection_error : {A : Type 0} → Body A → Text → Checked A
json_rejection_error (body a) expected = fine a
json_rejection_error json_data_error expected = refuse (record {
  status = 400;
  code = lit "MISSING_FIELD";
  message = lit "Request body must be a json object with a " ++ expected ++ lit " field";
})
json_rejection_error (rejected text) expected = refuse (record {
  status = 400;
  code = lit "INVALID_JSON";
  message = lit "Invalid json body: " ++ text;
})

-- `ExistingUser::from_request_parts`, on the header X-User.
unfoldable pub existing_user : Header → Checked Text
existing_user absent = refuse (state_error 400 "MISSING_HEADER" "Missing X-User header")
existing_user unreadable = refuse (state_error 400 "INVALID_USERNAME" "Invalid X-User header")
existing_user (header username) = fine username

abbrev pub Params : Type 0
Params = HashMap Text Text

-- A parameter of the query that is a number; one that is missing or empty is none.
unfoldable pub number_param : Option Text → StateError → Checked (Option ℕ)
number_param none e = fine none
number_param (some []) e = fine none
number_param (some (c ∷ t)) e = elim (parse_usize (c ∷ t)) [
  | none ↦ refuse e
  | some n ↦ fine (some n)
]

abbrev pub invalid_limit : StateError
invalid_limit = state_error 400 "INVALID_QUERY" "Invalid limit! Limit must be a nonnegative integer"

abbrev pub invalid_offset : StateError
invalid_offset =
    state_error 400 "INVALID_QUERY" "Invalid offset! Offset must be a nonnegative integer"

module _ (p : Platform) (id : Text) where
  open p use {json}
  open json use {Value, Map, object, string, boolean}

  pub record Response : Type 0 where
    pub status : ℕ
    pub content : Value

  abbrev pub respond : ℕ → List (Text × Value) → Response
  respond status entries = record { status = status; content = object (fields p entries) }

  -- `into_response` of an HttpServerError.
  abbrev pub error_response : StateError → Response
  error_response e = respond e.status (
      (lit "status", string (lit "error"))
      ∷ (lit "code", string e.code)
      ∷ (lit "message", string e.message)
      ∷ [])

  abbrev pub or_refuse : {A : Type 0} → Checked A → (A → M Value Response) → M Value Response
  or_refuse (fine a) f = f a
  or_refuse (refuse e) f = pure (error_response e)

  -- `?` on the result of an operation.
  abbrev pub answer : {A : Type 0} → (A → Response) → StateResult A → Response
  answer f (ok a) = f a
  answer f (err e) = error_response e

  abbrev pub answered : {A : Type 0} → M Value (StateResult A) → (A → Response) → M Value Response
  answered m f = m >>= λ r. pure (answer f r)

  unfoldable pub health : M Value Response
  health =
      pure (respond 200 ((lit "status", string (lit "ok")) ∷ (lit "server_id", string id) ∷ []))

  -- The lists of JSON objects are made by the given function.
  module _ (array : List Value → Value) where
    unfoldable pub servers : List Text → M Value Response
    servers names = view λ s. respond 200 (
        (
          lit "servers",
          array (
              map
                (λ (server, is_alive). object (
                  fields p
                    ((lit "server_id", string server) ∷ (lit "alive", boolean is_alive) ∷ [])))
                (get_server_states names s)),
        )
        ∷ [])

  -- `name` is the leader that the server holds; `get_server_state` panics for one that is not
  -- among the servers.
  unfoldable pub leader : List Text → Text → M Value Response
  leader names name w =
      if HashSet.contains name names
      then view
          (λ s.
            respond 200
              ((lit "leader", string name) ∷ (lit "alive", boolean (s.is_alive name)) ∷ []))
          w
      else panicked

  unfoldable pub post_user : Body Text → M Value Response
  unfolding json_rejection_error
  post_user b = or_refuse (json_rejection_error b (lit "username")) λ username.
      answered (Operations.create_user p id username)
        λ _. respond 201 ((lit "username", string username) ∷ [])

  unfoldable pub get_users : List Text → M Value Response
  get_users names = Merge.get_users p id names >>= λ users.
      pure (respond 200 ((lit "users", p.texts.to_value users) ∷ []))

  unfoldable pub debug_get_users : M Value Response
  debug_get_users = Operations.get_my_users p id >>= λ users.
      pure (respond 200 ((lit "users", p.texts.to_value users) ∷ []))

  unfoldable pub get_channels : List Text → M Value Response
  get_channels names = Merge.get_channels p id names >>= λ channels.
      pure (respond 200 ((lit "channels", p.texts.to_value channels) ∷ []))

  unfoldable pub debug_get_channels : M Value Response
  debug_get_channels = Operations.get_my_channels p id >>= λ channels.
      pure (respond 200 ((lit "channels", p.texts.to_value channels) ∷ []))
