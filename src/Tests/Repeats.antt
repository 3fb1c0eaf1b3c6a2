-- ===== src/Tests/Repeats.antt =====
-- B asks C to create alice, C goes down, and A, which has alice from C, is in charge.
use cs.Base.{◌≡◌, refl, true, false, not, none, some, List, [], ◌∷◌, ◌==◌, text_eq, text_beq}
use cs.Base.HashSet
use cs.Base.Text.{Text, lit}
use cs.Discord
use cs.Discord.{AppState, err, duplicate_user}
use cs.Distributed.Owners.{c_a, user_owner, is_authoritative}
use cs.Distributed.Wire.{as_request, as_response, state_result_to_value}
use cs.Distributed.Run.{Server, World, returned}
use cs.Distributed.Operations
use cs.Distributed.Operations.{user_request}
use cs.Distributed.Requests.{receive_callback}
use cs.Distributed.Repeats.{create_user_repeated}
use cs.Tests.Platform.{platform, json}

abbrev with_users : List Text → Server
with_users users = record {
  discord = record { users = users; channels = [] };
  is_alive = λ id. true;
}

abbrev without_c : Server → Server
without_c s = record s { is_alive = λ id. not (id == lit "C") }

abbrev a_in_charge : World json.Value
a_in_charge = record { server = without_c (with_users (lit "alice" ∷ [])); replies = []; sent = [] }

abbrev b_waits : World json.Value
b_waits = record {
  server = with_users [];
  replies =
      record { server = without_c (with_users []); answer = none }
      ∷ record {
        server = without_c (with_users []);
        answer = some (
            as_response platform 6 (lit "create_user")
              (state_result_to_value platform platform.unit (err duplicate_user)));
      }
      ∷ [];
  sent = [];
}

alice_owned : user_owner platform.hash (lit "alice") ≡ some c_a
unfolding user_owner lit
alice_owned = refl

alice_named : (lit "alice" == []) ≡ false
unfolding lit text_beq
alice_named = refl

alice_known : Discord.user_exists a_in_charge.server.discord (lit "alice") ≡ true
unfolding Discord.user_exists HashSet.contains lit text_beq
alice_known = refl

b_elsewhere : is_authoritative (lit "B") (λ id. true) c_a ≡ false
unfolding is_authoritative lit text_beq
b_elsewhere = refl

b_still_elsewhere : is_authoritative (lit "B") (λ id. not (id == lit "C")) c_a ≡ false
unfolding is_authoritative lit text_beq
b_still_elsewhere = refl

a_answers : is_authoritative (lit "A") (λ id. not (id == lit "C")) c_a ≡ true
unfolding is_authoritative lit text_beq
a_answers = refl

create_user_repeated_example :
    (receive_callback platform
        (lit "A")
        (lit "create_user")
        (as_request platform 6 (lit "create_user") (user_request platform (lit "B") (lit "alice")))
        a_in_charge
      ≡ returned a_in_charge (state_result_to_value platform platform.unit (err duplicate_user)))
    × ((w : World json.Value) × (Operations.create_user platform (lit "B") (lit "alice") b_waits
          ≡ returned w (err duplicate_user))
        × (w.replies ≡ []))
create_user_repeated_example =
    create_user_repeated platform (lit "B") (lit "A") (lit "alice") c_a 6 6 b_waits a_in_charge
      (without_c (with_users [])) (without_c (with_users [])) [] alice_named alice_owned b_elsewhere
      b_still_elsewhere a_answers alice_known refl
