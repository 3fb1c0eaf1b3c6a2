-- ===== src/Tests/Merging.antt =====
-- The names that several servers know, merged.
use cs.Base.{◌≡◌, refl, not, ◌==◌, none, some, List, [], ◌∷◌, ◌++◌, text_eq, text_beq, map}
use cs.Base.HashSet
use cs.Base.Order.{sort, insert_text, text_ltb}
use cs.Base.Text.{Text, lit}
use cs.Discord.{AppState}
use cs.Distributed.Run.{Server, Reply, World}
use cs.Distributed.Calls.{kind}
use cs.Distributed.Merge.{get_users}
use cs.Distributed.Merge.Asking.{Heard, reply_of}
use cs.Distributed.Merge.Names.{asked, Merged, get_users_lem}
use cs.Tests.Platform.{platform, json}

abbrev V : Type 0
V = json.Value

abbrev state_of : List Text → AppState
state_of users = record { users = users; channels = [] }

abbrev with_users : List Text → Server
with_users users = record { discord = state_of users; is_alive = λ id. not (id == lit "D") }

abbrev alone : Server → List (Reply V) → World V
alone s replies = record { server = s; replies = replies; sent = [] }

-- B asks A, which answers, and C, which goes down. D is held to be dead.
abbrev heard : List (Heard platform (lit "B"))
heard =
    record { server = with_users []; number = 1; names = some (lit "bob" ∷ lit "alice" ∷ []) }
    ∷ record { server = with_users []; number = 1; names = none }
    ∷ []

abbrev servers : List Text
servers = lit "C" ∷ lit "D" ∷ lit "A" ∷ lit "B" ∷ []

abbrev b_collects : Text → World V
b_collects kind =
    alone (with_users (lit "alice" ∷ [])) (map (reply_of platform (lit "B") kind) heard ++ [])

get_users_lem_example :
    Merged platform
      (lit "B")
      (lit "get_users")
      servers
      heard
      []
      (b_collects (lit "get_users"))
      (λ u. HashSet.contains u (lit "alice" ∷ []))
      (get_users platform (lit "B") servers (b_collects (lit "get_users")))
unfolding sort insert_text lit text_beq text_ltb
get_users_lem_example =
    get_users_lem platform (lit "B") servers heard [] (b_collects (lit "get_users")) refl refl

-- A and C are asked, in this order.
b_asks_a_and_c : asked platform (lit "B") servers (with_users []) ≡ lit "A" ∷ lit "C" ∷ []
unfolding sort insert_text lit text_beq text_ltb
b_asks_a_and_c = refl
