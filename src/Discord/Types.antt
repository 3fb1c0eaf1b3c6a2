-- ===== src/Discord/Types.antt =====
-- The records of pa2/src/discord_stateops.rs, its errors and its results.
use cs.Base.{ℕ, String, List, [], Option, Bool}
use cs.Base.HashSet.{HashSet}
use cs.Base.HashMap.{HashMap}
use cs.Base.Text.{Text, lit}

pub record Message : Type 0 where
  pub username : Text
  pub text : Text
  pub message_id : Text

-- `messages` is the B-tree in ascending order of the numeric ids.
pub record Channel : Type 0 where
  pub users : HashSet Text
  pub messages : List Message
  pub next_message_id : ℕ

abbrev pub new_channel : Channel
new_channel = record { users = []; messages = []; next_message_id = 0 }

pub record AppState : Type 0 where
  pub users : HashSet Text
  pub channels : HashMap Text Channel

abbrev pub new_app_state : AppState
new_app_state = record { users = []; channels = [] }

-- An HTTP status, an error code and a message.
pub record StateError : Type 0 where
  pub status : ℕ
  pub code : Text
  pub message : Text

pub data StateResult {ℓ} (A : Type ℓ) : Type ℓ where
  ok : A → StateResult A
  err : StateError → StateResult A

abbrev pub state_error : ℕ → String → String → StateError
state_error status code message = record { status = status; code = lit code; message = lit message }

-- A Rust function that may panic; `none` is the panic.
abbrev pub Panics {ℓ} : Type ℓ → Type ℓ
Panics = Option

-- What a handler leaves behind: the state and its result.
abbrev pub Outcome : Type 0 → Type 0
Outcome A = Panics (AppState × StateResult A)

-- An async handler either returns without waiting (and then has changed nothing), or waits once
-- for its `user_exists` argument and goes on with the answer, from the state of that later time.
pub data Async (A : Type 0) : Type 0 where
  done : StateResult A → Async A
  await_user_exists : Text → (Bool → AppState → Outcome A) → Async A

-- The `user_exists` argument: its answer, and what other tasks have made of the state meanwhile.
abbrev pub UserExistsFn : Type 0
UserExistsFn = Text → AppState → Bool × AppState

abbrev pub run : {A : Type 0} → Async A → UserExistsFn → AppState → Outcome A
run (done r) user_exists s = Option.some (s, r)
run (await_user_exists u k) user_exists s = let (exists, s') = user_exists u s in k exists s'
