-- ===== src/Tests/Returning.antt =====
-- Peers that go down while B waits, and a primary that fails between two reads.
use cs.Base.{◌≡◌, refl, inr, true, false, not, some, [], ◌∷◌, ◌==◌, text_eq, text_beq}
use cs.Base.Text.{lit}
use cs.Discord.{ok}
use cs.Distributed.Owners.{c_a, user_owner}
use cs.Distributed.Wire.{as_response, state_result_to_value}
use cs.Distributed.Run.{Server, World, returned, panicked, pure, ◌>>=◌, await_answer}
use cs.Distributed.Forward.{attempt_at, attempt, take_answer}
use cs.Distributed.Operations
use cs.Distributed.Operations.{user_request}
use cs.Distributed.Calls
use cs.Distributed.Returning.{down, perform-returns}
use cs.Distributed.Failures.{failure_between_reads}
use cs.Tests.Platform.{platform, json}

abbrev empty_server : Server
empty_server = record { discord = record { users = []; channels = [] }; is_alive = λ id. true }

abbrev without_c : Server
without_c = record empty_server { is_alive = λ id. not (id == lit "C") }

-- C goes down; A answers.
abbrev b_waits : World json.Value
b_waits = record {
  server = empty_server;
  replies =
      down platform without_c
      ∷ record {
        server = without_c;
        answer = some (
            as_response platform 6 (lit "create_user")
              (state_result_to_value platform platform.unit (ok tt)));
      }
      ∷ [];
  sent = [];
}

alice_owned : user_owner platform.hash (lit "alice") ≡ some c_a
unfolding user_owner lit
alice_owned = refl

b_not_primary : (lit "B" == lit "C") ≡ false
unfolding lit text_beq
b_not_primary = refl

b_not_backup : (lit "B" == lit "A") ≡ false
unfolding lit text_beq
b_not_backup = refl

perform-returns_example :
    Operations.create_user platform (lit "B") (lit "alice") b_waits
    ≡ returned
        (record {
          server = without_c;
          replies = [];
          sent =
              record {
                to = lit "A";
                kind = lit "create_user";
                message = user_request platform (lit "B") (lit "alice");
              }
              ∷ record {
                to = lit "C";
                kind = lit "create_user";
                message = user_request platform (lit "B") (lit "alice");
              }
              ∷ [];
        })
        (ok tt)
unfolding lit text_beq
perform-returns_example =
    perform-returns platform (lit "B") (Calls.create_user (lit "alice")) c_a (without_c ∷ []) 6
      b_waits without_c [] (ok tt) alice_owned b_not_primary b_not_backup tt refl

-- A, the backup of C.
abbrev a_starts : World json.Value
a_starts = record { server = empty_server; replies = []; sent = [] }

failure_between_reads_example :
    (attempt_at platform
        (lit "A")
        (λ id. not (id == lit "C"))
        c_a
        (pure true)
        json.null
        (lit "user_exists")
        json.as_bool
        a_starts
      ≡ panicked)
    × (attempt platform
          (lit "A")
          c_a
          (pure true)
          json.null
          (lit "user_exists")
          json.as_bool
          a_starts
        ≡ (await_answer (record { to = lit "C"; kind = lit "user_exists"; message = json.null })
              >>= take_answer platform (lit "A") json.as_bool)
            a_starts)
failure_between_reads_example =
    failure_between_reads platform c_a (λ id. not (id == lit "C")) (pure true) json.null
      (lit "user_exists") json.as_bool a_starts (inr (inr refl)) refl (unfold lit text_beq in refl)
