-- ===== src/Tests/Middleware.antt =====
-- Runs of heartbeats, elections and requests, and a configuration of three servers.
use cs.Base.{
  ℕ, ◌≡◌, ◌↔◌, refl, Bool, true, false, none, some, List, [], ◌∷◌, arith, inl, inr, Bool-cases,
  ◌==◌, text_eq, text_beq, nat_eq, text_beq_iff,
}
use cs.Base.HashSet.{contains, insert, remove, IsNodup}
use cs.Base.HashMap
use cs.Base.Text.{Text, lit}
use cs.Config.{Server, Config, get_config_for, validate_config, priorities_of, validate_config_iff}
use cs.Middleware.Election.{AllConfigured, Highest, alive_servers, on_failure_round, initial_leader}
use cs.Middleware.Election.Agreement.{on_failure_rounds_agree}
use cs.Middleware.Heartbeat
use cs.Middleware.Heartbeat.Trace.{Agrees, after-Agrees}
use cs.Middleware.Peer.{MessageToSend, Event, prepared, written, response, died, step, after}
use cs.Middleware.Peer.Accounts.{Accounts, IsQuiet, calls, registered}
use cs.Middleware.Peer.Callbacks.{after-Accounts, death_answers_all, dead_answers_all}

abbrev server_a : Server
server_a = record { id = lit "A"; host = lit "h"; http_port = 1; peer_port = 2; priority = 10 }

abbrev server_b : Server
server_b = record { id = lit "B"; host = lit "h"; http_port = 3; peer_port = 4; priority = 30 }

abbrev server_c : Server
server_c = record { id = lit "C"; host = lit "h"; http_port = 5; peer_port = 6; priority = 20 }

abbrev cluster : Config
cluster = server_a ∷ server_b ∷ server_c ∷ []

leader_at_start : initial_leader cluster ≡ some (lit "B")
unfolding initial_leader
leader_at_start = refl

validate_config_iff_example : (validate_config cluster ≡ some tt) ↔ IsNodup (priorities_of cluster)
validate_config_iff_example = validate_config_iff cluster

cluster-valid : validate_config cluster ≡ some tt
unfolding validate_config HashMap.insert HashMap.contains_key HashMap.get
cluster-valid = refl

-- B is dead; A and C see it, and list the others in different orders.
abbrev states_a : List (Text × Bool)
states_a = (lit "B", false) ∷ (lit "C", true) ∷ (lit "A", true) ∷ []

abbrev states_c : List (Text × Bool)
states_c = (lit "A", true) ∷ (lit "B", false) ∷ (lit "C", true) ∷ []

alive_a : alive_servers states_a ≡ lit "C" ∷ lit "A" ∷ []
unfolding alive_servers lit
alive_a = refl

alive_c : alive_servers states_c ≡ lit "A" ∷ lit "C" ∷ []
unfolding alive_servers lit
alive_c = refl

config_c : get_config_for cluster (lit "C") ≡ some server_c
unfolding get_config_for lit text_beq
config_c = refl

config_a : get_config_for cluster (lit "A") ≡ some server_a
unfolding get_config_for lit text_beq
config_a = refl

both_configured : AllConfigured cluster (lit "C" ∷ lit "A" ∷ [])
unfolding contains
both_configured v m = elim (Bool-cases (lit "C" == v)) [
  | inl c ↦ (server_c, rw (← (text_beq_iff (lit "C") v).0 c) config_c)
  | inr other ↦ (server_a, rw (← (text_beq_iff (lit "A") v).0 (ground (arith, m, other))) config_a)
]

on_failure_rounds_agree_example :
    (l : Text) × (on_failure_round cluster (lit "A") (lit "B") states_a
      ≡ some (record { leader = l; announces = l == lit "A" }))
    × (on_failure_round cluster (lit "C") (lit "B") states_c
        ≡ some (record { leader = l; announces = l == lit "C" }))
    × Highest cluster (lit "C" ∷ lit "A" ∷ []) l
on_failure_rounds_agree_example =
    on_failure_rounds_agree cluster cluster-valid (lit "C") (lit "A") (lit "A" ∷ []) (lit "C" ∷ [])
      (lit "A") (lit "C") (lit "B") (lit "B") states_a states_c alive_a alive_c both_configured
      (λ v. unfold contains in ground arith)

-- Three pings run out after one was answered in time, and a late answer comes.
abbrev silence : List Heartbeat.Event
silence =
    Heartbeat.pong 1
    ∷ Heartbeat.timeout 3
    ∷ Heartbeat.timeout 2
    ∷ Heartbeat.timeout 1
    ∷ Heartbeat.ping
    ∷ Heartbeat.ping
    ∷ Heartbeat.ping
    ∷ Heartbeat.pong 0
    ∷ Heartbeat.ping
    ∷ []

found_dead : (Heartbeat.after silence).is_alive ≡ false
unfolding Heartbeat.after Heartbeat.step Heartbeat.on_timeout contains insert remove
found_dead = refl

after-Agrees_example : Agrees silence (Heartbeat.after silence)
after-Agrees_example = after-Agrees silence (omega arith) (omega arith)

-- Two requests, an answer to the second, the end of the peer and a third request, which is given up.
abbrev request : ℕ → MessageToSend ℕ ℕ
request c = record { message = 0; callback = some c; is_response = false }

abbrev exchange : List (Event ℕ ℕ)
exchange =
    written
    ∷ prepared (request 9)
    ∷ died
    ∷ response 2 5
    ∷ written
    ∷ prepared (request 8)
    ∷ written
    ∷ prepared (request 7)
    ∷ []

told : (after ℕ ℕ exchange).fired ≡ (9, none) ∷ (7, none) ∷ (8, some 5) ∷ []
unfolding after step HashMap.insert HashMap.get HashMap.remove
told = refl

exchange-IsQuiet : IsQuiet ℕ exchange
exchange-IsQuiet = ((λ r. cc), ((λ r. cc), ((λ r. cc), tt)))

after-Accounts_example : Accounts ℕ exchange (after ℕ ℕ exchange)
after-Accounts_example = after-Accounts ℕ exchange exchange-IsQuiet (omega arith)

death_answers_all_example : calls ℕ 9 (after ℕ ℕ (died ∷ exchange)).fired ≡ registered ℕ 9 exchange
death_answers_all_example = death_answers_all ℕ exchange 9 exchange-IsQuiet (omega arith)

exchange_dead : (after ℕ ℕ exchange).is_alive ≡ false
unfolding after step HashMap.insert HashMap.get HashMap.remove
exchange_dead = refl

dead_answers_all_example :
    calls ℕ 9 (after ℕ ℕ (written ∷ exchange)).fired ≡ registered ℕ 9 exchange
dead_answers_all_example =
    dead_answers_all ℕ exchange 9 exchange-IsQuiet (omega arith) exchange_dead
