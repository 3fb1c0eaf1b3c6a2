-- ===== src/Distributed/Dispatch.antt =====
-- pa2/src/server_middleware.rs, `peer_task`: what a server does with one line of JSON from a peer.
use cs.Base.{
  ℕ, ◌<◌, ◌≡◌, refl, Bool, true, false, Option, none, some, [], ◌∷◌, if◌then◌else◌, ◌==◌, text_eq,
  text_beq,
}
use cs.Base.Options.{◌>>=◌}
use cs.Base.Decimal.{usize_mod}
use cs.Base.Text.{Text, lit}
use cs.Distributed.Wire.{Platform, fields, as_request, as_response}

module _ (p : Platform) where
  open p use {json}
  open json use {
    Value, Map, insert, lookup, object, string, number, boolean, null, get, set, as_str, as_u64,
    as_bool, lookup-insert, get-object, set-object, as_str-string, as_u64-number, as_bool-boolean,
  }

  pub data Action : Type 0 where
    -- the callback that waits under this number, if there is one, is called with the response
    call_back : ℕ → Value → Action
    -- a PONG is queued
    pong : Value → Action
    set_leader : Text → Action
    -- the request of this kind is answered by a task of its own, under this number
    answer : Text → Value → ℕ → Action

  -- `json!` of an Option.
  abbrev option_value : Option Value → Value
  option_value none = null
  option_value (some v) = v

  -- `from` is the server's own id.
  pong_message : Text → Value → Value
  pong_message from value = object (
      fields p (
        (lit "type", string (lit "PONG"))
        ∷ (lit "from", string from)
        ∷ (lit "sequence_number", option_value (get value (lit "sequence_number")))
        ∷ []))

  unfoldable pub on_request : Text → Value → ℕ → Text → Option Action
  unfolding pong_message
  on_request from value seq_num kind =
      if kind == lit "PING"
      then some (pong (pong_message from value))
      else if kind == lit "LEADER_ANNOUNCEMENT"
      then (get value (lit "leader") >>= as_str >>= λ leader. some (set_leader leader))
      else some (answer kind value seq_num)

  -- `none` is the panic of an `unwrap`.
  unfoldable pub dispatch : Text → Value → Option Action
  unfolding on_request
  dispatch from value = do
    seq_num ← get value (lit "sequence_number") >>= as_u64
    is_response ← get value (lit "is_response") >>= as_bool
    if is_response
        then some (call_back seq_num value)
        else (get value (lit "type") >>= as_str >>= on_request from value seq_num)

  -- What the answering task queues.
  unfoldable pub response_message : Text → ℕ → Value → Value
  response_message kind seq_num response =
      set (set response (lit "sequence_number") (number seq_num)) (lit "request_type") (string kind)

  -- `send_message_task` marks a message as request or response.
  unfoldable pub mark : Bool → Value → Value
  mark is_response message = set message (lit "is_response") (boolean is_response)

  module _ (from : Text) (value : Value) (n : ℕ) (small : n < usize_mod)
      (numbered : get value (lit "sequence_number") ≡ some (number n)) where
    dispatch-response :
        get value (lit "is_response") ≡ some (boolean true)
        → dispatch from value ≡ some (call_back n value)
    unfolding dispatch
    dispatch-response marked =
        rw (numbered, marked) (rw (as_u64-number n small, as_bool-boolean true) refl)

    dispatch-request :
        (kind : Text)
        → get value (lit "is_response") ≡ some (boolean false)
        → get value (lit "type") ≡ some (string kind)
        → (kind == lit "PING") ≡ false
        → (kind == lit "LEADER_ANNOUNCEMENT") ≡ false
        → dispatch from value ≡ some (answer kind value n)
    unfolding dispatch on_request
    dispatch-request kind marked typed not_ping not_leader =
        rw (numbered, marked, typed)
          (rw (as_u64-number n small, as_bool-boolean false, as_str-string kind)
            (rw (not_ping, not_leader) refl))

  -- A request and the response to it, both JSON objects, as they reach the other side under a
  -- number below 2^64: the request is given to the callback of its kind with that number, and what
  -- this answers wakes the callback under the same number. (The kind is neither PING nor
  -- LEADER_ANNOUNCEMENT.)
  pub dispatch_lem :
      (from from' kind : Text) (m r : Map) (n : ℕ)
      → n < usize_mod
      → (kind == lit "PING") ≡ false
      → (kind == lit "LEADER_ANNOUNCEMENT") ≡ false
      → (dispatch from (as_request p n kind (object m))
          ≡ some (answer kind (as_request p n kind (object m)) n))
        × (dispatch from' (mark true (response_message kind n (object r)))
            ≡ some (call_back n (as_response p n kind (object r))))
  unfolding mark response_message as_request as_response lit text_beq
  dispatch_lem from from' kind m r n small not_ping not_leader =
      let q =
        set (set (set (object m) (lit "type") (string kind)) (lit "sequence_number") (number n))
          (lit "is_response") (boolean false) in
      let a =
        set
          (set (set (object r) (lit "sequence_number") (number n)) (lit "request_type")
            (string kind))
          (lit "is_response") (boolean true) in
      let q_numbered : get q (lit "sequence_number") ≡ some (number n) =
        simp (set-object, get-object, lookup-insert) in
      let q_marked : get q (lit "is_response") ≡ some (boolean false) =
        simp (set-object, get-object, lookup-insert) in
      let q_typed : get q (lit "type") ≡ some (string kind) =
        simp (set-object, get-object, lookup-insert) in
      let a_numbered : get a (lit "sequence_number") ≡ some (number n) =
        simp (set-object, get-object, lookup-insert) in
      let a_marked : get a (lit "is_response") ≡ some (boolean true) =
        simp (set-object, get-object, lookup-insert) in
      (
        dispatch-request from q n small q_numbered kind q_marked q_typed not_ping not_leader,
        dispatch-response from' a n small a_numbered a_marked,
      )
