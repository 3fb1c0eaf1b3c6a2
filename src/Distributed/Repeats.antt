-- ===== src/Distributed/Repeats.antt =====
-- A request that is sent again after its server went down.
use cs.Base.{
  ◌≡◌, refl, ◌∙◌, true, false, Option, none, some, List, [], ◌∷◌, ◌==◌, text_eq, ℕ, arith,
}
use cs.Base.Text.{Text, lit}
use cs.Discord
use cs.Discord.{StateResult, ok, err, duplicate_user}
use cs.Discord.Users.{create_user_lem}
use cs.Distributed.Owners.{LocationConfig, is_authoritative, forward_location, user_owner}
use cs.Distributed.Wire.{
  Platform, state_result_to_value, state_result_from_value-to_value, as_request, as_response,
}
use cs.Distributed.Run.{Server, Reply, World, returned, M, await_answer}
use cs.Distributed.Forward.{operation, replicate, take_answer}
use cs.Distributed.Operations
use cs.Distributed.Operations.{user_request}
use cs.Distributed.Requests.{answer_with, receive_callback}
use cs.Distributed.Retry.{operation_at_lem, attempt_elsewhere, operation_at-forwarded}
use cs.Distributed.Calls
use cs.Distributed.Calls.{receive_callback_lem}
use cs.Distributed.Remote.{operation-here}

module _ (p : Platform) where
  abbrev V : Type 0
  V = p.json.Value

  -- Two rounds: the first peer went down, the second answers.
  operation-repeated :
      (id : Text) {A : Type 0} (o : Option LocationConfig) (here : LocationConfig → M V A)
      (message : V) (kind : Text) (decode : V → Option A) (l : LocationConfig) (w : World V)
      (s t : Server) (rs : List (Reply V)) (v : V) (a : A)
      → o ≡ some l
      → is_authoritative id w.server.is_alive l ≡ false
      → is_authoritative id s.is_alive l ≡ false
      → w.replies
        ≡ record { server = s; answer = none } ∷ record { server = t; answer = some v } ∷ rs
      → decode v ≡ some a
      → (w' : World V) × (operation p id o here message kind decode w ≡ returned w' a)
        × (w'.replies ≡ rs)
  unfolding operation await_answer take_answer
  operation-repeated id o here message kind decode l w s t rs v a owned first second replies
        decoded =
      let after : World V = record {
        server = s;
        replies = record { server = t; answer = some v } ∷ rs;
        sent =
            record { to = forward_location w.server.is_alive l; kind = kind; message = message }
            ∷ w.sent;
      } in
      let again =
        operation_at-forwarded p id l (here l) message kind decode after _ rs v a second refl refl
          decoded in
      (
        record {
          server = t;
          replies = rs;
          sent =
              record { to = forward_location s.is_alive l; kind = kind; message = message }
              ∷ after.sent;
        },
        rw owned (
            operation_at_lem p id l (here l) message kind decode w
            ∙ rw (attempt_elsewhere p id l (here l) message kind decode w first, replies) again),
        refl,
      )

  -- The backup acts as the owner and has the user already.
  create_user-known :
      (backup u : Text) (l : LocationConfig) (y : World V)
      → (u == []) ≡ false
      → user_owner p.hash u ≡ some l
      → is_authoritative backup y.server.is_alive l ≡ true
      → Discord.user_exists y.server.discord u ≡ true
      → Operations.create_user p backup u y ≡ returned y (err duplicate_user)
  unfolding Operations.create_user operation replicate
  create_user-known backup u l y named owned in_charge known =
      let (result, _, _, same) = create_user_lem y.server.discord u in
      let refused : (Discord.create_user y.server.discord u).1 ≡ err duplicate_user =
        result ∙ rw (named, known) refl in
      let unchanged : (Discord.create_user y.server.discord u).0 ≡ y.server.discord =
        same (rw refused refl) in
      operation-here p backup _ _ _ _ _ l y _ owned in_charge (rw (refused, unchanged) refl)

  -- Let a server that is not in charge pass create_user of a name that is not empty on, let its
  -- peer go down without an answer, and let the backup have that user, because the peer's change
  -- reached it, and be in charge. Then the backup refuses the request with DUPLICATE_USER, and if
  -- this is the next reply, the call, which the server has sent again, ends with DUPLICATE_USER.
  pub create_user_repeated :
      (here backup u : Text) (l : LocationConfig) (n m : ℕ) (w y : World V) (s t : Server)
      (rs : List (Reply V))
      → (u == []) ≡ false
      → user_owner p.hash u ≡ some l
      → is_authoritative here w.server.is_alive l ≡ false
      → is_authoritative here s.is_alive l ≡ false
      → is_authoritative backup y.server.is_alive l ≡ true
      → Discord.user_exists y.server.discord u ≡ true
      → w.replies
        ≡ record { server = s; answer = none }
          ∷ record {
            server = t;
            answer = some (
                as_response p m
                  (lit "create_user")
                  (state_result_to_value p p.unit (err duplicate_user)));
          }
          ∷ rs
      → (receive_callback p backup
            (lit "create_user")
            (as_request p n (lit "create_user") (user_request p here u))
            y
          ≡ returned y (state_result_to_value p p.unit (err duplicate_user)))
        × ((w' : World V) × (Operations.create_user p here u w ≡ returned w' (err duplicate_user))
            × (w'.replies ≡ rs))
  unfolding answer_with Operations.create_user
  create_user_repeated here backup u l n m w y s t rs named owned first second in_charge known
        replies =
      (
        receive_callback_lem p backup (Calls.create_user u) n y tt
            ∙ rw (create_user-known backup u l y named owned in_charge known) refl,
        operation-repeated here _ _ _ _ _ l w s t rs _ _ owned first second replies (
            state_result_from_value-to_value p p.unit (err duplicate_user) m (lit "create_user")
              (omega arith, omega arith)),
      )
