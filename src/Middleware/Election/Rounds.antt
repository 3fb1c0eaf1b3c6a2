-- ===== src/Middleware/Election/Rounds.antt =====
-- The code of the election.
use cs.Base.{
  ℕ, Bool, true, false, Option, none, some, List, [], ◌∷◌, reverse, if◌then◌else◌, ltb, leb, ◌==◌,
  text_eq, nat_eq, not,
}
use cs.Base.Text.{Text}
use cs.Config.{Server, Config, get_config_for}

-- `max_by`: of equal priorities the later server is kept.
abbrev later_of : Server → Server → Server
later_of best server = if ltb server.priority best.priority then best else server

max_by_from : Server → Config → Server
max_by_from best [] = best
max_by_from best (server ∷ config) = max_by_from (later_of best server) config

-- The leader that `SystemState::new` starts with; `none` is the panic of an empty configuration.
unfoldable pub initial_leader : Config → Option Text
unfolding max_by_from
initial_leader [] = none
initial_leader (server ∷ config) = some (max_by_from server config).id

-- The ids of `get_server_states` that are alive.
unfoldable pub alive_servers : List (Text × Bool) → List Text
alive_servers [] = []
alive_servers ((server, is_alive) ∷ states) =
    let rest = alive_servers states in if is_alive then server ∷ rest else rest

-- The comparison of two priorities, which looks both servers up.
unfoldable pub compare_servers : Config → Text → Text → Option Bool
compare_servers config a b = elim (get_config_for config a) [
  | none ↦ none
  | some sa ↦ elim (get_config_for config b) [
    | none ↦ none
    | some sb ↦ some (leb sa.priority sb.priority)
  ]
]

-- One insertion of a stable sort.
unfoldable pub insert_sorted : Config → Text → List Text → Option (List Text)
unfolding compare_servers
insert_sorted config a [] = some (a ∷ [])
insert_sorted config a (b ∷ bs) = elim (compare_servers config a b) [
  | none ↦ none
  | some true ↦ some (a ∷ b ∷ bs)
  | some false ↦ elim (insert_sorted config a bs) [ none ↦ none | some rest ↦ some (b ∷ rest) ]
]

-- `sort_by` of the priorities, ascending and stable; `none` is the panic of a comparison.
unfoldable pub sort_by_priority : Config → List Text → Option (List Text)
unfolding insert_sorted
sort_by_priority config [] = some []
sort_by_priority config (a ∷ rest) = elim (sort_by_priority config rest) [
  | none ↦ none
  | some bs ↦ insert_sorted config a bs
]

abbrev pub head? : List Text → Option Text
head? [] = none
head? (a ∷ rest) = some a

-- `sort_by`, `reverse` and `server_states[0]`; `none` is a panic.
unfoldable pub first_choice : Config → List Text → Option Text
first_choice config alive = elim (sort_by_priority config alive) [
  | none ↦ none
  | some sorted ↦ head? (reverse sorted)
]

-- What one round of the task leaves: the leader, and whether this server announces itself.
pub record Round : Type 0 where
  pub leader : Text
  pub announces : Bool

-- One round after a failure, at the server `id` whose leader is `leader`.
unfoldable pub on_failure_round : Config → Text → Text → List (Text × Bool) → Option Round
unfolding first_choice alive_servers
on_failure_round config id leader states = elim (first_choice config (alive_servers states)) [
  | none ↦ none
  | some choice ↦ some (record {
    leader = if not (leader == choice) then choice else leader;
    announces = choice == id;
  })
]

-- The announcement at start: the server has the highest priority.
max_priority : ℕ → Config → ℕ
max_priority best [] = best
max_priority best (server ∷ config) =
    max_priority (if ltb server.priority best then best else server.priority) config

unfoldable pub announces_at_start : Config → Text → Option Bool
unfolding max_priority
announces_at_start [] id = none
announces_at_start (server ∷ config) id = elim (get_config_for (server ∷ config) id) [
  | none ↦ none
  | some own ↦ some (own.priority == max_priority server.priority config)
]
