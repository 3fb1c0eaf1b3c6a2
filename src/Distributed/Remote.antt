-- ===== src/Distributed/Remote.antt =====
-- A call that one server makes of another, from end to end: request, answer and result.
use cs.Base.{ℕ, ◌≡◌, refl, ◌∙◌, Bool, true, false, Option, some, List, [], ◌∷◌, text_beq}
use cs.Base.Text.{Text, lit}
use cs.Discord
use cs.Discord.{StateResult, ok, err}
use cs.Distributed.Owners.{LocationConfig, is_authoritative, forward_location, user_owner}
use cs.Distributed.Wire.{
  Platform, HasStatus, state_result_to_value, state_result_from_value,
  state_result_from_value-to_value, as_request, as_response, index, fields,
}
use cs.Distributed.Run.{Server, Request, Reply, World, returned, M}
use cs.Distributed.Forward.{operation}
use cs.Distributed.Operations
use cs.Distributed.Operations.{user_request}
use cs.Distributed.Requests.{answer_with, receive_callback, answer_user_exists}
use cs.Distributed.Retry.{attempt_here, operation_at_lem, operation_at-forwarded}
use cs.Distributed.Calls.{
  Call, create_user, join_channel, leave_channel, send_message, list_channel_users, get_messages,
  Answer, Fits, kind, params, owner, perform, serde, receive_callback_lem, str_field-as_request,
}

module _ (p : Platform) where
  abbrev V : Type 0
  V = p.json.Value

  -- The request by which a server passes a call on.
  abbrev pub passed_on : Text → Call → LocationConfig → Server → Request V
  passed_on id q l s = record {
    to = forward_location s.is_alive l;
    kind = kind q;
    message = params p id q;
  }

  -- An operation at the server in charge.
  pub operation-here :
      (id : Text) {A : Type 0} (o : Option LocationConfig) (here : LocationConfig → M V A)
      (message : V) (kind : Text) (decode : V → Option A) (l : LocationConfig) (w : World V) (a : A)
      → o ≡ some l
      → is_authoritative id w.server.is_alive l ≡ true
      → here l w ≡ returned w a
      → operation p id o here message kind decode w ≡ returned w a
  unfolding operation
  operation-here id o here message kind decode l w a owned authority result = rw owned (
      operation_at_lem p id l (here l) message kind decode w
      ∙ rw (attempt_here p id l (here l) message kind decode w authority) (rw result refl))

  operation-forwarded :
      (id : Text) {A : Type 0} (o : Option LocationConfig) (here : LocationConfig → M V A)
      (message : V) (kind : Text) (decode : V → Option A) (l : LocationConfig) (w : World V)
      (s : Server) (rs : List (Reply V)) (v : V) (a : A)
      → o ≡ some l
      → is_authoritative id w.server.is_alive l ≡ false
      → w.replies ≡ record { server = s; answer = some v } ∷ rs
      → decode v ≡ some a
      → operation p id o here message kind decode w
        ≡ returned
            (record {
              server = s;
              replies = rs;
              sent =
                  record {
                    to = forward_location w.server.is_alive l;
                    kind = kind;
                    message = message;
                  }
                  ∷ w.sent;
            })
            a
  unfolding operation
  operation-forwarded id o here message kind decode l w s rs v a owned elsewhere replies decoded =
      rw owned (
        operation_at-forwarded p id l (here l) message kind decode w _ rs v a elsewhere replies refl
          decoded)

  -- A call that is passed on ends with the answer.
  perform-forwarded :
      (id : Text) (q : Call) (l : LocationConfig) (w : World V) (s : Server) (rs : List (Reply V))
      (v : V) (r : StateResult (Answer q))
      → owner p q ≡ some l
      → is_authoritative id w.server.is_alive l ≡ false
      → w.replies ≡ record { server = s; answer = some v } ∷ rs
      → state_result_from_value p (serde p q) v ≡ some r
      → perform p id q w
        ≡ returned
            (record { server = s; replies = rs; sent = passed_on id q l w.server ∷ w.sent })
            r
  unfolding Operations.create_user Operations.join_channel Operations.leave_channel
      Operations.send_message Operations.list_channel_users Operations.get_messages
  perform-forwarded id (create_user u) = operation-forwarded id _ _ _ _ _
  perform-forwarded id (join_channel u c) = operation-forwarded id _ _ _ _ _
  perform-forwarded id (leave_channel u c) = operation-forwarded id _ _ _ _ _
  perform-forwarded id (send_message c u t) = operation-forwarded id _ _ _ _ _
  perform-forwarded id (list_channel_users c) = operation-forwarded id _ _ _ _ _
  perform-forwarded id (get_messages c limit offset) = operation-forwarded id _ _ _ _ _

  -- Let a server that is not in charge, by its own view, of the owners of a call pass the call on,
  -- and let the server that it asks perform the call with some result, whose status is an HTTP
  -- status if it is an error. Then that server's callback comes to the same state, with the result
  -- in its answer; and if this answer is the next reply, the call ends at the first server with
  -- the same result, after this one request. (A limit and an offset are below 2^64.)
  pub remote_call :
      (here there : Text) (q : Call) (l : LocationConfig) (n m : ℕ) (w y y' : World V)
      (r : StateResult (Answer q)) (s : Server) (rs : List (Reply V))
      → Fits q
      → owner p q ≡ some l
      → is_authoritative here w.server.is_alive l ≡ false
      → perform p there q y ≡ returned y' r
      → HasStatus p r
      → w.replies
        ≡ record {
          server = s;
          answer = some (as_response p m (kind q) (state_result_to_value p (serde p q) r));
        }
          ∷ rs
      → (receive_callback p there (kind q) (as_request p n (kind q) (params p here q)) y
          ≡ returned y' (state_result_to_value p (serde p q) r))
        × (perform p here q w
            ≡ returned
                (record { server = s; replies = rs; sent = passed_on here q l w.server ∷ w.sent })
                r)
  unfolding answer_with
  remote_call here there q l n m w y y' r s rs fits owned elsewhere performed status replies = (
    receive_callback_lem p there q n y fits ∙ rw performed refl,
    perform-forwarded here q l w s rs
        (as_response p m (kind q) (state_result_to_value p (serde p q) r)) r owned elsewhere replies
        (state_result_from_value-to_value p (serde p q) r m (kind q) status),
  )

  abbrev pub known_value : Bool → V
  known_value b = p.json.object (p.json.insert p.json.empty (lit "user_exists") (p.json.boolean b))

  read_known :
      (m : ℕ) (b : Bool)
      → p.json.as_bool
          (index p (as_response p m (lit "user_exists") (known_value b)) (lit "user_exists"))
        ≡ some b
  unfolding as_response lit text_beq
  read_known m b =
      let v =
        p.json.set
          (p.json.set (p.json.set (known_value b) (lit "sequence_number") (p.json.number m))
            (lit "request_type") (p.json.string (lit "user_exists")))
          (lit "is_response") (p.json.boolean true) in
      let found : p.json.get v (lit "user_exists") ≡ some (p.json.boolean b) =
        simp (p.json.set-object, p.json.get-object, p.json.lookup-insert) in
      rw found (p.json.as_bool-boolean b)

  -- Let a server that is not in charge, by its own view, of a user's owners pass `user_exists` on.
  -- The server that it asks answers from its own users, whatever it thinks of who is in charge,
  -- and if this answer is the next reply, it is what `user_exists` returns, after this one
  -- request.
  pub remote_user_exists :
      (here there u : Text) (l : LocationConfig) (n m : ℕ) (w y : World V) (s : Server)
      (rs : List (Reply V))
      → user_owner p.hash u ≡ some l
      → is_authoritative here w.server.is_alive l ≡ false
      → w.replies
        ≡ record {
          server = s;
          answer = some (
              as_response p m
                (lit "user_exists")
                (known_value (Discord.user_exists y.server.discord u)));
        }
          ∷ rs
      → (receive_callback p there
            (lit "user_exists")
            (as_request p n (lit "user_exists") (user_request p here u))
            y
          ≡ returned y (known_value (Discord.user_exists y.server.discord u)))
        × (Operations.user_exists p here u w
            ≡ returned
                (record {
                  server = s;
                  replies = rs;
                  sent =
                      record {
                        to = forward_location w.server.is_alive l;
                        kind = lit "user_exists";
                        message = user_request p here u;
                      }
                      ∷ w.sent;
                })
                (Discord.user_exists y.server.discord u))
  unfolding receive_callback answer_user_exists Operations.user_exists lit text_beq
  remote_user_exists here there u l n m w y s rs owned elsewhere replies = (
    rw
        (str_field-as_request p there (fields p ((lit "username", p.json.string u) ∷ [])) n
          (lit "user_exists") (lit "username") u y (refl, refl, refl) (simp p.json.lookup-insert))
        refl,
    operation-forwarded here _ _ _ _ _ l w s rs _ _ owned elsewhere replies
        (read_known m (Discord.user_exists y.server.discord u)),
  )
