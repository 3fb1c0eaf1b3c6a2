-- ===== src/Middleware/Election/Agreement.antt =====
-- Two servers after a round of the election.
use cs.Base.{◌≡◌, Bool, true, some, List, [], ◌∷◌, ◌==◌, text_eq, text_beq_iff, nat_eq, arith}
use cs.Base.HashSet.{contains, IsNodup}
use cs.Base.Text.{Text}
use cs.Config.{Server, Config, get_config_for, priorities_of, validate_config, validate_config_iff}
use cs.Middleware.Election.Rounds.{first_choice, alive_servers, on_failure_round}
use cs.Middleware.Election.Sorting.{AllConfigured, priority, Highest, first_choice_lem}

-- A configured server's priority is among those of the configuration.
contains-priorities_of :
    (config : Config) (id : Text) (s : Server)
    → get_config_for config id ≡ some s
    → contains s.priority (priorities_of config) ≡ true
unfolding contains get_config_for
contains-priorities_of [] id s h = cc
contains-priorities_of (x ∷ config) id s h = ground (arith, contains-priorities_of config id s)

-- In a configuration with different priorities the priority tells the server.
same_priority :
    (config : Config) (a b : Text) (sa sb : Server)
    → IsNodup (priorities_of config)
    → get_config_for config a ≡ some sa
    → get_config_for config b ≡ some sb
    → sa.priority ≡ sb.priority
    → a ≡ b
unfolding get_config_for
same_priority [] a b sa sb once ea eb e = cc
same_priority (x ∷ config) a b sa sb once ea eb e = ground (
  arith,
  once.0,
  text_beq_iff x.id a,
  text_beq_iff x.id b,
  contains-priorities_of config a sa,
  contains-priorities_of config b sb,
  same_priority config a b sa sb once.1,
)

module _ (config : Config) (valid : validate_config config ≡ some tt) where
  -- Two highest servers of lists that hold the same servers are the same.
  Highest-unique :
      (xs ys : List Text) (k l : Text)
      → AllConfigured config xs
      → ((v : Text) → contains v xs ≡ contains v ys)
      → Highest config xs k
      → Highest config ys l
      → k ≡ l
  unfolding priority
  Highest-unique xs ys k l c same hk hl =
      let in_xs : contains l xs ≡ true = ground (arith, same l, hl.member) in
      let in_ys : contains k ys ≡ true = ground (arith, same k, hk.member) in
      let (sk, ek) = c k hk.member in
      let (sl, el) = c l in_xs in
      same_priority config k l sk sl ((validate_config_iff config).0 valid) ek el
        (ground (arith, hk.highest l in_xs, hl.highest k in_ys))

  -- Under an accepted configuration, two servers that hold the same servers to be alive, listed in
  -- whatever order, make the same choice, and it is a server that both hold to be alive.
  pub first_choice_agrees :
      (x y : Text) (xs ys : List Text)
      → AllConfigured config (x ∷ xs)
      → ((v : Text) → contains v (x ∷ xs) ≡ contains v (y ∷ ys))
      → (l : Text) × (first_choice config (x ∷ xs) ≡ some l)
        × (first_choice config (y ∷ ys) ≡ some l)
        × (contains l (x ∷ xs) ≡ true)
  first_choice_agrees x y xs ys c same =
      let (k, ek, hk) = first_choice_lem config x xs c in
      let c' : AllConfigured config (y ∷ ys) = λ v m. c v (ground (arith, same v)) in
      let (l, el, hl) = first_choice_lem config y ys c' in
      let agree : k ≡ l = Highest-unique (x ∷ xs) (y ∷ ys) k l c same hk hl in
      (k, ek, rw agree el, hk.member)

  -- Under an accepted configuration, two servers that hold the same servers to be alive, at least
  -- one and all of them configured, have the same leader after a round, whatever they had before:
  -- a server that both hold to be alive and whose priority none of the others exceeds; and each
  -- announces itself exactly if it is that server.
  pub on_failure_rounds_agree :
      (x y : Text) (xs ys : List Text) (id id' leader leader' : Text)
      (states states' : List (Text × Bool))
      → alive_servers states ≡ x ∷ xs
      → alive_servers states' ≡ y ∷ ys
      → AllConfigured config (x ∷ xs)
      → ((v : Text) → contains v (x ∷ xs) ≡ contains v (y ∷ ys))
      → (l : Text) × (on_failure_round config id leader states
          ≡ some (record { leader = l; announces = l == id }))
        × (on_failure_round config id' leader' states'
            ≡ some (record { leader = l; announces = l == id' }))
        × Highest config (x ∷ xs) l
  unfolding on_failure_round
  on_failure_rounds_agree x y xs ys id id' leader leader' states states' e e' c same =
      let (l, ex, ey, m) = first_choice_agrees x y xs ys c same in
      let (k, ek, hk) = first_choice_lem config x xs c in
      let one : k ≡ l = ground (arith, ex, ek) in
      (
        l,
        ground (arith, text_beq_iff leader l),
        ground (arith, text_beq_iff leader' l),
        rw (← one) hk,
      )
