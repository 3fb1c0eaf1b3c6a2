-- ===== src/Chat/Types.antt =====
-- The records of pa1/server/src/stateops.rs.
use cs.Base.{ℕ, String, List, [], Option}
use cs.Base.HashSet.{HashSet}
use cs.Base.HashMap.{HashMap}
use cs.Base.Text.{Text, lit}

pub record Message : Type 0 where
  pub username : Text
  pub text : Text
  pub message_id : ℕ

-- `messages` is the vector, the oldest message first.
pub record Channel : Type 0 where
  pub users : HashSet Text
  pub messages : List Message

abbrev pub new_channel : Channel
new_channel = record { users = []; messages = [] }

pub record AppState : Type 0 where
  pub users : HashSet Text
  pub channels : HashMap Text Channel
  pub user_channels : HashMap Text (HashSet Text)
  pub next_message_id : ℕ

abbrev pub new_app_state : AppState
new_app_state = record { users = []; channels = []; user_channels = []; next_message_id = 0 }

-- An HTTP status and a message.
abbrev pub StateError : Type 0
StateError = ℕ × Text

abbrev pub state_error : ℕ → String → StateError
state_error status message = (status, lit message)

pub data StateResult {ℓ} (A : Type ℓ) : Type ℓ where
  ok : A → StateResult A
  err : StateError → StateResult A

-- The state afterwards and the result; `none` is a panic.
abbrev pub Outcome : Type 0 → Type 0
Outcome A = Option (AppState × StateResult A)
