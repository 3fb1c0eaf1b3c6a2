-- ===== src/Distributed/Forward.antt =====
-- The frame that all operations of pa2/src/distributed_stateops.rs share: answer here, or forward
-- to the owner and try again while it is down; and the replication of what succeeded.
use cs.Base.{
  Bool, ℕ, zero, suc, not, ◌||◌, Option, none, some, if◌then◌else◌, ◌==◌, text_eq, length,
}
use cs.Base.Text.{Text, lit}
use cs.Discord.{StateResult, ok, err}
use cs.Distributed.Owners.{LocationConfig, is_authoritative, forward_location}
use cs.Distributed.Wire.{Platform, Serde, state_result_from_value}
use cs.Distributed.Run.{returned, panicked, waiting, M, ◌>>=◌, pure, unwrap, await_answer}

module _ (p : Platform) (id : Text) where
  open p use {json}
  open json use {Value, Map, empty, insert, object, string, set}

  unfoldable pub forward_request_to : Value → Text → Text → M Value (Option Value)
  unfolding await_answer
  forward_request_to message kind to w =
      if id == to
      then panicked
      else await_answer (record { to = to; kind = kind; message = message }) w

  -- The request, nested.
  abbrev pub replicated : Text → Value → Value
  replicated kind message =
      object (insert empty (lit "request") (set message (lit "type") (string kind)))

  unfoldable pub replicate_op : Value → Text → Text → M Value (Option Value)
  unfolding forward_request_to
  replicate_op message kind to = forward_request_to (replicated kind message) (lit "replicate") to

  unfoldable pub forward_request : Value → Text → LocationConfig → M Value (Option Value)
  unfolding forward_request_to forward_location
  forward_request message kind l w =
      if id == l.primary
      then panicked
      else forward_request_to message kind (forward_location w.server.is_alive l) w

  module _ {A : Type 0} where
    -- After an operation that succeeded here: the backup's answer, or `done` when there is no backup
    -- to ask or it went down.
    unfoldable pub backup_answer : Serde json A → A → Option Value → M Value (StateResult A)
    backup_answer c a none = pure (ok a)
    backup_answer c a (some v) = unwrap (state_result_from_value p c v)

    unfoldable pub replicate :
        Serde json A → LocationConfig → Text → (A → Value) → StateResult A → M Value (StateResult A)
    unfolding backup_answer replicate_op
    replicate c l kind message (err e) w = returned w (err e)
    replicate c l kind message (ok a) w =
        if l.backup == id || not (w.server.is_alive l.backup)
        then returned w (ok a)
        else (replicate_op (message a) kind l.backup >>= backup_answer c a) w

    -- One attempt: `none` is a peer that went down, after which the source calls itself.
    unfoldable pub take_answer : (Value → Option A) → Option Value → M Value (Option A)
    take_answer decode none = pure none
    take_answer decode (some v) = unwrap (decode v) >>= λ a. pure (some a)

    -- `later` is what the server holds of the others when `forward_request` reads it; another thread
    -- may have changed it since the test.
    unfoldable pub attempt_at :
        (Text → Bool)
        → LocationConfig
        → M Value A
        → Value
        → Text
        → (Value → Option A)
        → M Value (Option A)
    unfolding take_answer forward_request is_authoritative
    attempt_at later l here message kind decode w =
        if is_authoritative id w.server.is_alive l
        then (here >>= λ a. pure (some a)) w
        else (forward_request message kind l >>= take_answer decode)
            (record w { server = record w.server { is_alive = later } })

    -- Both reads see the same.
    unfoldable pub attempt :
        LocationConfig → M Value A → Value → Text → (Value → Option A) → M Value (Option A)
    unfolding attempt_at
    attempt l here message kind decode w = attempt_at w.server.is_alive l here message kind decode w

    abbrev pub or_else : M Value A → Option A → M Value A
    or_else m none = m
    or_else m (some a) = pure a

    -- The source's call of itself; each round but the last takes an answer.
    unfoldable pub retry : ℕ → M Value (Option A) → M Value A
    retry zero m w = waiting w
    retry (suc fuel) m w = (m >>= or_else (retry fuel m)) w

    unfoldable pub operation_at :
        LocationConfig → M Value A → Value → Text → (Value → Option A) → M Value A
    unfolding retry attempt
    operation_at l here message kind decode w =
        retry (suc (length w.replies)) (attempt l here message kind decode) w

    -- `none` is the panic of `user_owner` and `channel_owner`.
    unfoldable pub operation :
        Option LocationConfig
        → (LocationConfig → M Value A)
        → Value
        → Text
        → (Value → Option A)
        → M Value A
    unfolding operation_at
    operation none here message kind decode w = panicked
    operation (some l) here message kind decode w = operation_at l (here l) message kind decode w
