-- ===== src/Distributed/Merge.antt =====
-- `get_users` and `get_channels`: what all servers know, merged. Also `get_server_states` of
-- pa2/src/server_middleware.rs.
pub mod Asking
pub mod Names
use cs.Base.{
  ℕ, zero, suc, ◌+◌, ◌≡◌, refl, sym, ap, ◌∙◌, Bool, true, false, not, ◌&&◌, ◌||◌, Option, none,
  some, List, [], ◌∷◌, ◌++◌, map, if◌then◌else◌, ◌==◌, text_eq, text_beq_iff, length, arith,
  Bool-cases, inl, inr,
}
use mathlib.Core.List.{append-nil, append_assoc}
use cs.Base.HashSet
use cs.Base.HashMap
use cs.Base.Text.{Text, lit}
use cs.Base.Order.{text_ltb, sort, dedup, Ascends, dedup-sort-Ascends, contains-dedup-sort}
use cs.Discord
use cs.Discord.{StateResult, ok, err}
use cs.Distributed.Wire.{
  Platform, state_result_from_value, state_result_to_value, state_result_from_value-to_value,
  as_response,
}
use cs.Distributed.Run.{
  Server, Request, Reply, World, Result, returned, panicked, M, ◌>>=◌, then_run, pure, unwrap,
  await_answer,
}
use cs.Distributed.Forward.{forward_request_to}
use cs.Distributed.Operations.{get_my_users, get_my_channels}

-- The order of pairs.
abbrev state_ltb : Text × Bool → Text × Bool → Bool
state_ltb (a, x) (b, y) = text_ltb a b || a == b && (not x && y)

unfoldable insert_state : Text × Bool → List (Text × Bool) → List (Text × Bool)
insert_state s [] = s ∷ []
insert_state s (t ∷ ts) =
    let rest = insert_state s ts in if state_ltb t s then t ∷ rest else s ∷ t ∷ ts

unfoldable pub sort_states : List (Text × Bool) → List (Text × Bool)
unfolding insert_state
sort_states [] = []
sort_states (s ∷ ss) = insert_state s (sort_states ss)

-- `servers` are the servers of the configuration, in any order.
unfoldable pub get_server_states : List Text → Server → List (Text × Bool)
unfolding sort_states
get_server_states servers s = sort_states (map (λ id. (id, s.is_alive id)) servers)

module _ (p : Platform) (id : Text) where
  abbrev V : Type 0
  V = p.json.Value

  -- `unwrap` of a result.
  abbrev ok_value : {A : Type 0} → StateResult A → Option A
  ok_value (ok a) = some a
  ok_value (err e) = none

  -- One answer; `none` is a peer that went down.
  unfoldable pub names_of_answer : Option V → M V (List Text)
  names_of_answer none = pure []
  names_of_answer (some v) =
      unwrap (state_result_from_value p p.texts v) >>= λ r. unwrap (ok_value r)

  abbrev pub is_asked : Text × Bool → Bool
  is_asked (peer, alive) = not (peer == id) && alive

  -- One turn of the loop: the names that it appends.
  unfoldable pub ask : Text → Text × Bool → M V (List Text)
  unfolding forward_request_to names_of_answer
  ask kind peer w =
      if is_asked peer
      then (forward_request_to p id (p.json.object p.json.empty) kind peer.0 >>= names_of_answer) w
      else returned w []

  unfoldable pub collect : Text → List (Text × Bool) → List Text → M V (List Text)
  unfolding ask
  collect kind [] names = pure names
  collect kind (peer ∷ peers) names = ask kind peer >>= λ more. collect kind peers (names ++ more)

  unfoldable pub get_users : List Text → M V (List Text)
  unfolding collect get_server_states get_my_users
  get_users servers w =
      let peers = get_server_states servers w.server in
      (get_my_users p id >>= collect (lit "get_users") peers >>= λ all_users.
      pure (dedup (sort all_users)))
        w

  unfoldable pub get_channels : List Text → M V (List Text)
  unfolding collect get_server_states get_my_channels
  get_channels servers w =
      let peers = get_server_states servers w.server in
      (get_my_channels p id >>= collect (lit "get_channels") peers >>= λ all_channels.
      pure (dedup (sort all_channels)))
        w
