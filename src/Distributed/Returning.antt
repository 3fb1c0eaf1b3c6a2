-- ===== src/Distributed/Returning.antt =====
-- A call that is passed on while peers go down.
use cs.Base.{
  ◌≡◌, refl, ◌∙◌, false, Option, none, some, List, [], ◌∷◌, ◌++◌, map, if◌then◌else◌, ◌==◌, text_eq,
  ℕ,
}
use cs.Base.Text.{Text}
use cs.Discord.{StateResult}
use cs.Distributed.Owners.{LocationConfig, forward_location}
use cs.Distributed.Wire.{
  Platform, HasStatus, state_result_to_value, state_result_from_value,
  state_result_from_value-to_value, as_response,
}
use cs.Distributed.Run.{Server, Request, Reply, World, returned, M, await_answer}
use cs.Distributed.Forward.{operation, operation_at, take_answer}
use cs.Distributed.Operations
use cs.Distributed.Retry.{neither, attempt_elsewhere, operation_at_lem, operation_at-forwarded}
use cs.Distributed.Calls.{
  Call, create_user, join_channel, leave_channel, send_message, list_channel_users, get_messages,
  Answer, kind, params, owner, perform, serde,
}

module _ (p : Platform) where
  abbrev V : Type 0
  V = p.json.Value

  -- A wait that ends because the peer went down.
  abbrev pub down : Server → Reply V
  down s = record { server = s; answer = none }

  -- The requests that a server sends in these states, one in each, the latest first.
  abbrev pub resent : LocationConfig → Text → V → List Server → List (Request V) → List (Request V)
  resent l kind message [] sent = sent
  resent l kind message (s ∷ ss) sent = resent l kind message ss (
      record {
        to = if s.is_alive l.primary then l.primary else l.backup;
        kind = kind;
        message = message;
      }
      ∷ sent)

  module _ (id : Text) {A : Type 0} (message : V) (kind : Text) (decode : V → Option A)
      (l : LocationConfig) (not_primary : (id == l.primary) ≡ false)
      (not_backup : (id == l.backup) ≡ false) (t : Server) (rs : List (Reply V)) (v : V) (a : A)
      (decoded : decode v ≡ some a) where
    operation_at-returns :
        (here : M V A) (downs : List Server) (w : World V)
        → w.replies ≡ map down downs ++ record { server = t; answer = some v } ∷ rs
        → operation_at p id l here message kind decode w
          ≡ returned
              (record {
                server = t;
                replies = rs;
                sent = resent l kind message (w.server ∷ downs) w.sent;
              })
              a
    unfolding await_answer take_answer forward_location
    operation_at-returns here [] w replies =
        operation_at-forwarded p id l here message kind decode w _ rs v a
          (neither p id l here message kind decode not_primary not_backup w) replies refl decoded
    operation_at-returns here (s ∷ ss) w replies =
        let next : World V = record {
          server = s;
          replies = map down ss ++ record { server = t; answer = some v } ∷ rs;
          sent =
              record {
                to = if w.server.is_alive l.primary then l.primary else l.backup;
                kind = kind;
                message = message;
              }
              ∷ w.sent;
        } in
        operation_at_lem p id l here message kind decode w
        ∙ rw
            (
              attempt_elsewhere p id l here message kind decode w
                  (neither p id l here message kind decode not_primary not_backup w),
              replies,
            )
            (operation_at-returns here ss next refl)

    operation-returns :
        (o : Option LocationConfig) (here : LocationConfig → M V A) (downs : List Server)
        (w : World V)
        → o ≡ some l
        → w.replies ≡ map down downs ++ record { server = t; answer = some v } ∷ rs
        → operation p id o here message kind decode w
          ≡ returned
              (record {
                server = t;
                replies = rs;
                sent = resent l kind message (w.server ∷ downs) w.sent;
              })
              a
    unfolding operation
    operation-returns o here downs w owned replies =
        rw owned (operation_at-returns (here l) downs w replies)

  perform-answered :
      (id : Text) (q : Call) (l : LocationConfig)
      → (id == l.primary) ≡ false
      → (id == l.backup) ≡ false
      → (t : Server) (rs : List (Reply V)) (v : V) (r : StateResult (Answer q))
      → state_result_from_value p (serde p q) v ≡ some r
      → (downs : List Server) (w : World V) → owner p q ≡ some l
      → w.replies ≡ map down downs ++ record { server = t; answer = some v } ∷ rs
      → perform p id q w
        ≡ returned
            (record {
              server = t;
              replies = rs;
              sent = resent l (kind q) (params p id q) (w.server ∷ downs) w.sent;
            })
            r
  unfolding Operations.create_user Operations.join_channel Operations.leave_channel
      Operations.send_message Operations.list_channel_users Operations.get_messages
  perform-answered id (create_user u) l np nb t rs v r decoded =
      operation-returns id _ _ _ l np nb t rs v r decoded _ _
  perform-answered id (join_channel u c) l np nb t rs v r decoded =
      operation-returns id _ _ _ l np nb t rs v r decoded _ _
  perform-answered id (leave_channel u c) l np nb t rs v r decoded =
      operation-returns id _ _ _ l np nb t rs v r decoded _ _
  perform-answered id (send_message c u x) l np nb t rs v r decoded =
      operation-returns id _ _ _ l np nb t rs v r decoded _ _
  perform-answered id (list_channel_users c) l np nb t rs v r decoded =
      operation-returns id _ _ _ l np nb t rs v r decoded _ _
  perform-answered id (get_messages c limit offset) l np nb t rs v r decoded =
      operation-returns id _ _ _ l np nb t rs v r decoded _ _

  -- Let a server that is neither the primary nor the backup make a call, let any number of peers go
  -- down while it waits, and let one then answer with a result, whose status is an HTTP status if it
  -- is an error. The call returns that result, after one request in each state that it was in: to the
  -- primary if it was held to be alive then, and otherwise to the backup.
  pub perform-returns :
      (id : Text) (q : Call) (l : LocationConfig) (downs : List Server) (m : ℕ) (w : World V)
      (t : Server) (rs : List (Reply V)) (r : StateResult (Answer q))
      → owner p q ≡ some l
      → (id == l.primary) ≡ false
      → (id == l.backup) ≡ false
      → HasStatus p r
      → w.replies
        ≡ map down downs
          ++ record {
            server = t;
            answer = some (as_response p m (kind q) (state_result_to_value p (serde p q) r));
          }
            ∷ rs
      → perform p id q w
        ≡ returned
            (record {
              server = t;
              replies = rs;
              sent = resent l (kind q) (params p id q) (w.server ∷ downs) w.sent;
            })
            r
  perform-returns id q l downs m w t rs r owned not_primary not_backup status replies =
      perform-answered id q l not_primary not_backup t rs _ r
        (state_result_from_value-to_value p (serde p q) r m (kind q) status) downs w owned replies
