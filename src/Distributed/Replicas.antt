-- ===== src/Distributed/Replicas.antt =====
-- Replication from end to end: the request of the primary, the backup's change, and its answer.
use cs.Base.{
  ℕ, ◌≡◌, refl, ◌∙◌, true, false, some, List, [], ◌∷◌, ◌==◌, text_eq, text_beq, arith, text_beq_iff,
}
use cs.Base.Text.{Text, lit}
use cs.Discord
use cs.Discord.{AppState, StateResult, ok, err}
use cs.Distributed.Owners.{LocationConfig}
use cs.Distributed.Wire.{
  Platform, state_result_to_value, state_result_from_value-to_value, index, fields, as_request,
  as_response,
}
use cs.Distributed.Run.{
  Server, Reply, World, returned, M, ◌>>=◌, pure, put_outcome, with_discord, run_async,
  await_answer,
}
use cs.Distributed.Forward.{replicated, replicate, replicate_op, forward_request_to, backup_answer}
use cs.Distributed.Requests.{
  str_field, answer_with, everybody, receive_callback, receive_replicated, replicate_create_user,
  replicate_join_channel, replicate_leave_channel,
}
use cs.Distributed.Calls.{get-as_request}
use cs.Distributed.Changes.{
  Change, create_user, join_channel, leave_channel, apply, Agree, apply-Agree, everyone,
}

module _ (p : Platform) where
  open p use {json}
  open json use {
    Value, Map, empty, insert, lookup, object, string, get, set, as_str, lookup-empty,
    lookup-insert, get-object, set-object, as_str-string,
  }

  abbrev pub kind : Change → Text
  kind (create_user u) = lit "create_user"
  kind (join_channel u c) = lit "join_channel"
  kind (leave_channel u c) = lit "leave_channel"

  module _ (id : Text) where
    abbrev pub parameters : Change → Map
    parameters (create_user u) = fields p ((lit "username", string u) ∷ [])
    parameters (join_channel u c) =
        fields p ((lit "username", string u) ∷ (lit "channel", string c) ∷ [])
    parameters (leave_channel u c) =
        fields p ((lit "username", string u) ∷ (lit "channel", string c) ∷ [])

    str_field-object :
        (m : Map) (i t : Text) (w : World Value)
        → lookup m i ≡ some (string t)
        → str_field p id (object m) i w ≡ returned w t
    unfolding str_field
    str_field-object m i t w found = rw (get-object m i, found) (rw (as_str-string t) refl)

    -- The change of the backup.
    abbrev pub change : Change → M Value (StateResult (Unit {0}))
    change q w = put_outcome w (apply q w.server.discord)

    receive_replicated_lem :
        (q : Change) (w : World Value)
        → receive_replicated p id (object (insert (parameters q) (lit "type") (string (kind q)))) w
          ≡ answer_with p id p.unit (change q) w
    unfolding receive_replicated replicate_create_user replicate_join_channel
        replicate_leave_channel everybody apply lit text_beq Discord.join_channel
        Discord.leave_channel answer_with
    receive_replicated_lem (create_user u) w =
        let m = insert (parameters (create_user u)) (lit "type") (string (lit "create_user")) in
        rw (str_field-object m (lit "type") (lit "create_user") w (simp lookup-insert))
          (rw (str_field-object m (lit "username") u w (simp lookup-insert)) refl)
    receive_replicated_lem (join_channel u c) w =
        let m = insert (parameters (join_channel u c)) (lit "type") (string (lit "join_channel")) in
        rw (str_field-object m (lit "type") (lit "join_channel") w (simp lookup-insert)) (
          rw (str_field-object m (lit "username") u w (simp lookup-insert))
            (rw (str_field-object m (lit "channel") c w (simp lookup-insert)) refl))
    receive_replicated_lem (leave_channel u c) w =
        let m =
          insert (parameters (leave_channel u c)) (lit "type") (string (lit "leave_channel")) in
        rw (str_field-object m (lit "type") (lit "leave_channel") w (simp lookup-insert)) (
          rw (str_field-object m (lit "username") u w (simp lookup-insert)) (
            rw (str_field-object m (lit "channel") c w (simp lookup-insert))
              (left (Discord.leave_channel_task w.server.discord u c) w)))
      where
        left :
            (t : Discord.Async (Unit {0})) (w : World Value)
            → (run_async t (λ u'. pure true) >>= λ r. pure (state_result_to_value p p.unit r)) w
              ≡ ((λ w'. put_outcome w' (Discord.run t everyone w'.server.discord)) >>= λ r.
                    pure (state_result_to_value p p.unit r))
                  w
        left (Discord.done r) w = refl
        left (Discord.await_user_exists v k) w = refl

    nested :
        (m : Map) (n : ℕ) (k : Text)
        → index p (as_request p n (lit "replicate") (replicated p id k (object m))) (lit "request")
          ≡ object (insert m (lit "type") (string k))
    unfolding lit text_beq
    nested m n k =
        rw
          (get-as_request p (insert empty (lit "request") (set (object m) (lit "type") (string k)))
            n (lit "replicate") (lit "request") refl refl refl)
          (simp (lookup-insert, set-object))

  abbrev pub request_value : Text → Change → Value
  request_value id q = replicated p id (kind q) (object (parameters id q))

  abbrev pub success : Value
  success = state_result_to_value p p.unit (ok tt)

  -- A backup that receives a change makes it, and answers with its result.
  pub receive_replicate_lem :
      (id : Text) (q : Change) (n : ℕ) (y : World Value)
      → receive_callback p id
          (lit "replicate")
          (as_request p n (lit "replicate") (request_value id q))
          y
        ≡ answer_with p id p.unit (change id q) y
  unfolding receive_callback lit text_beq
  receive_replicate_lem id q n y =
      rw (nested id (parameters id q) n (kind q)) (receive_replicated_lem id q y)

  -- Let the creation of a user, a join or a leave have succeeded at a server that is not the
  -- backup and holds the backup to be alive, and let the backup agree with the state before the
  -- change on the users and on the members of each channel. Then the backup's callback makes the
  -- change as well and reports success, the two agree afterwards, and if this answer is the next
  -- reply, the server reports success, after this one request.
  pub replicate_lem :
      (here there : Text) (q : Change) (l : LocationConfig) (n m : ℕ) (before : AppState)
      (w y : World Value) (s : Server) (rs : List (Reply Value))
      → apply q before ≡ some (w.server.discord, ok tt)
      → Agree before y.server.discord
      → (l.backup == here) ≡ false
      → w.server.is_alive l.backup ≡ true
      → w.replies
        ≡ record { server = s; answer = some (as_response p m (lit "replicate") success) } ∷ rs
      → (after : AppState) × (receive_callback p there
            (lit "replicate")
            (as_request p n (lit "replicate") (request_value here q))
            y
          ≡ returned (with_discord y after) success)
        × Agree w.server.discord after
        × (replicate p here p.unit l (kind q) (λ a. object (parameters here q)) (ok tt) w
            ≡ returned
                (record {
                  server = s;
                  replies = rs;
                  sent =
                      record {
                        to = l.backup;
                        kind = lit "replicate";
                        message = request_value here q;
                      }
                      ∷ w.sent;
                })
                (ok tt))
  unfolding answer_with replicate replicate_op forward_request_to backup_answer await_answer
  replicate_lem here there q l n m before w y s rs changed agree other alive replies =
      let (after, made, agree') =
        apply-Agree q before w.server.discord y.server.discord agree changed in
      let other' : (here == l.backup) ≡ false =
        ground (arith, text_beq_iff here l.backup, text_beq_iff l.backup here) in
      let read = state_result_from_value-to_value p p.unit (ok tt) m (lit "replicate") tt in
      (
        after,
        receive_replicate_lem there q n y ∙ rw made refl,
        agree',
        rw (other, alive) (rw (other', replies) (rw read refl)),
      )
