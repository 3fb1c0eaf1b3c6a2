-- ===== src/Tests/Forwarding.antt =====
-- Calls that servers pass on, on a small JSON.
use cs.Base.{
  ◌≡◌, refl, true, false, none, some, List, [], ◌∷◌, ◌==◌, text_eq, text_beq, length, suc, ◌+◌,
  arith,
}
use cs.Base.HashSet
use cs.Base.Text.{Text, lit}
use cs.Discord
use cs.Discord.{AppState, StateResult, ok, err, new_app_state}
use cs.Distributed.Owners.{c_a, user_owner, is_authoritative, forward_location}
use cs.Distributed.Wire.{
  as_request, as_response, state_result_to_value, state_result_from_value,
  state_result_from_value-to_value,
}
use cs.Distributed.Run.{Server, Reply, World, returned, waiting, pure, with_discord}
use cs.Distributed.Forward.{operation_at, attempt, replicate}
use cs.Distributed.Operations
use cs.Distributed.Operations.{user_request}
use cs.Distributed.Requests.{receive_callback}
use cs.Distributed.Retry.{operation_at-waiting}
use cs.Distributed.Calls
use cs.Distributed.Calls.{Call, kind, params, perform}
use cs.Distributed.Remote.{passed_on, known_value, remote_call, remote_user_exists}
use cs.Distributed.Changes.{create_user, Agree, apply}
use cs.Distributed.Replicas.{request_value, success, parameters, replicate_lem}
use cs.Tests.Platform.{platform, json}

abbrev V : Type 0
V = json.Value

abbrev state_of : List Text → AppState
state_of users = record { users = users; channels = [] }

abbrev with_users : List Text → Server
with_users users = record { discord = state_of users; is_alive = λ id. true }

abbrev alone : Server → List (Reply V) → World V
alone s replies = record { server = s; replies = replies; sent = [] }

state_result_from_value-to_value_example :
    state_result_from_value platform platform.unit (
      as_response platform 7
        (lit "create_user")
        (state_result_to_value platform platform.unit (err Discord.duplicate_user)))
    ≡ some (err Discord.duplicate_user)
state_result_from_value-to_value_example =
    state_result_from_value-to_value platform platform.unit (err Discord.duplicate_user) 7
      (lit "create_user") (omega arith, omega arith)

-- The owner of alice is C, whose backup is A.
abbrev alice : Call
alice = Calls.create_user (lit "alice")

-- C, and A's answer to C.
abbrev c_before : World V
c_before = alone (with_users []) (
    record {
      server = with_users (lit "alice" ∷ []);
      answer = some (as_response platform 3 (lit "replicate") (success platform));
    }
    ∷ [])

abbrev c_after : World V
c_after = record {
  server = with_users (lit "alice" ∷ []);
  replies = [];
  sent =
      record {
        to = lit "A";
        kind = lit "replicate";
        message = request_value platform (lit "C") (create_user (lit "alice"));
      }
      ∷ [];
}

-- B, and C's answer to B.
abbrev b_before : World V
b_before = alone (with_users []) (
    record {
      server = with_users [];
      answer = some (as_response platform 5 (lit "create_user") (success platform));
    }
    ∷ [])

owner_of_alice : user_owner platform.hash (lit "alice") ≡ some c_a
unfolding user_owner lit
owner_of_alice = refl

elsewhere : is_authoritative (lit "B") (λ id. true) c_a ≡ false
unfolding is_authoritative lit text_beq
elsewhere = refl

performed : perform platform (lit "C") alice c_before ≡ returned c_after (ok tt)
unfolding Operations.create_user Discord.create_user replicate attempt lit text_beq HashSet.contains
    HashSet.insert as_response state_result_to_value user_owner state_result_from_value
performed = refl

remote_call_example :
    (receive_callback platform
        (lit "C")
        (lit "create_user")
        (as_request platform 5 (lit "create_user") (user_request platform (lit "B") (lit "alice")))
        c_before
      ≡ returned c_after (success platform))
    × (perform platform (lit "B") alice b_before
        ≡ returned
            (record {
              server = with_users [];
              replies = [];
              sent = passed_on platform (lit "B") alice c_a (with_users []) ∷ [];
            })
            (ok tt))
remote_call_example =
    remote_call platform (lit "B") (lit "C") alice c_a 5 5 b_before c_before c_after (ok tt)
      (with_users []) [] tt owner_of_alice elsewhere performed tt refl

-- C knows alice.
abbrev c_knows : World V
c_knows = alone (with_users (lit "alice" ∷ [])) []

abbrev b_asks : World V
b_asks = alone (with_users []) (
    record {
      server = with_users [];
      answer = some (
          as_response platform 5 (lit "user_exists") (
            known_value platform
              (Discord.user_exists (state_of (lit "alice" ∷ [])) (lit "alice"))));
    }
    ∷ [])

remote_user_exists_example :
    (receive_callback platform
        (lit "C")
        (lit "user_exists")
        (as_request platform 5 (lit "user_exists") (user_request platform (lit "B") (lit "alice")))
        c_knows
      ≡ returned c_knows
          (known_value platform (Discord.user_exists (state_of (lit "alice" ∷ [])) (lit "alice"))))
    × (Operations.user_exists platform (lit "B") (lit "alice") b_asks
        ≡ returned
            (record {
              server = with_users [];
              replies = [];
              sent =
                  record {
                    to = lit "C";
                    kind = lit "user_exists";
                    message = user_request platform (lit "B") (lit "alice");
                  }
                  ∷ [];
            })
            (Discord.user_exists (state_of (lit "alice" ∷ [])) (lit "alice")))
unfolding forward_location
remote_user_exists_example =
    remote_user_exists platform (lit "B") (lit "C") (lit "alice") c_a 5 5 b_asks c_knows
      (with_users []) [] owner_of_alice elsewhere refl

-- C has made alice and replicates to A, which knows nobody.
abbrev c_made : World V
c_made = record c_before { server = with_users (lit "alice" ∷ []) }

abbrev a_before : World V
a_before = alone (with_users []) []

made : apply (create_user (lit "alice")) (state_of []) ≡ some (state_of (lit "alice" ∷ []), ok tt)
unfolding apply Discord.create_user HashSet.contains HashSet.insert lit
made = refl

other : (lit "A" == lit "C") ≡ false
unfolding lit text_beq
other = refl

at_the_start : Agree (state_of []) (state_of [])
at_the_start = record { users = λ v. refl; members = λ d v. refl }

replicate_lem_example :
    (after : AppState) × (receive_callback platform
        (lit "A")
        (lit "replicate")
        (as_request platform 4
          (lit "replicate")
          (request_value platform (lit "C") (create_user (lit "alice"))))
        a_before
      ≡ returned (with_discord a_before after) (success platform))
    × Agree (state_of (lit "alice" ∷ [])) after
    × (replicate platform
          (lit "C")
          platform.unit
          c_a
          (lit "create_user")
          (λ a. json.object (parameters platform (lit "C") (create_user (lit "alice"))))
          (ok tt)
          c_made
        ≡ returned c_after (ok tt))
replicate_lem_example =
    replicate_lem platform (lit "C") (lit "A") (create_user (lit "alice")) c_a 4 3 (state_of [])
      c_made a_before (with_users (lit "alice" ∷ [])) [] made at_the_start other refl refl

-- B asks C twice and hears nothing.
abbrev b_unheard : World V
b_unheard = alone (with_users []) (
    record { server = with_users []; answer = none }
    ∷ record { server = with_users []; answer = none }
    ∷ [])

not_primary : (lit "B" == lit "C") ≡ false
unfolding lit text_beq
not_primary = refl

not_backup : (lit "B" == lit "A") ≡ false
unfolding lit text_beq
not_backup = refl

operation_at-waiting_example :
    (w : World V) × (operation_at platform
        (lit "B")
        c_a
        (pure true)
        json.null
        (lit "user_exists")
        json.as_bool
        b_unheard
      ≡ waiting w)
    × (length w.sent ≡ suc (2 + 0))
operation_at-waiting_example =
    operation_at-waiting platform (lit "B") c_a (pure true) json.null (lit "user_exists")
      json.as_bool b_unheard not_primary not_backup (refl, (refl, tt))
