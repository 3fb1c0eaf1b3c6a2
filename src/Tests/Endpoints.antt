-- ===== src/Tests/Endpoints.antt =====
-- The HTTP endpoints on a small state.
use cs.Base.{◌≤◌, ◌≡◌, refl, true, some, List, [], ◌∷◌, text_eq, text_beq, length, arith}
use cs.Base.HashMap
use cs.Base.Text.{Text, lit}
use cs.Discord.{AppState}
use cs.Distributed.Owners.{c_a, is_authoritative}
use cs.Distributed.Run.{Server, Reply, World, returned}
use cs.Base.Decimal.{decimal}
use cs.Discord.Members.{messages}
use cs.Discord.Reading.{page}
use cs.Distributed.Owners.{channel_owner}
use cs.Distributed.Endpoints.{Params}
use cs.Distributed.Endpoints.Channels.{get_messages}
use cs.Distributed.Endpoints.Pages.{page_response, get_messages-page}
use cs.Tests.Platform.{platform, json}

abbrev V : Type 0
V = json.Value

abbrev state_of : List Text → AppState
state_of users = record { users = users; channels = [] }

abbrev with_users : List Text → Server
with_users users = record { discord = state_of users; is_alive = λ id. true }

abbrev alone : Server → List (Reply V) → World V
alone s replies = record { server = s; replies = replies; sent = [] }

-- C, which has a channel and is in charge of it: #systems.
abbrev c_serves : World V
c_serves =
    alone
      (record {
        discord = record {
          users = lit "alice" ∷ [];
          channels =
              (
                lit "#systems",
                record {
                  users = lit "alice" ∷ [];
                  messages =
                      record {
                        username = lit "alice";
                        text = lit "hi";
                        message_id = lit "#systems-0";
                      }
                      ∷ [];
                  next_message_id = 1;
                },
              )
              ∷ [];
        };
        is_alive = λ id. true;
      })
      []

abbrev page_params : Params
page_params = (lit "limit", decimal 5) ∷ (lit "offset", decimal 0) ∷ []

owner_of_systems : channel_owner platform.hash (lit "#systems") ≡ some c_a
unfolding channel_owner lit text_beq
owner_of_systems = refl

in_charge : is_authoritative (lit "C") (λ id. true) c_a ≡ true
unfolding is_authoritative lit text_beq
in_charge = refl

get_messages-page_example :
    (get_messages platform (lit "C") (lit "#systems") page_params c_serves
      ≡ returned c_serves
          (page_response platform (lit "C") c_serves.server.discord (lit "#systems") 5 0))
    × (length (page (messages c_serves.server.discord (lit "#systems")) 5 0) ≤ 5)
get_messages-page_example =
    get_messages-page platform (lit "C") (lit "#systems") page_params 5 0 c_a c_serves
      (unfold HashMap.get lit text_beq in refl) (unfold HashMap.get lit text_beq in refl)
      (omega arith) (omega arith) owner_of_systems in_charge
