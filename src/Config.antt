-- ===== src/Config.antt =====
-- pa2/src/config.rs: the servers of the cluster. Reading the file is not modelled.
use cs.Base.{
  ℕ, ◌≡◌, refl, ◌↔◌, false, Option, none, some, List, [], ◌∷◌, arith, inl, inr, if◌then◌else◌,
  Bool-cases, ◌==◌, text_eq, nat_eq,
}
use cs.Base.HashSet.{contains, IsNodup}
use cs.Base.HashMap
use cs.Base.HashMap.{HashMap}
use cs.Base.Text.{Text}

pub record Server : Type 0 where
  pub id : Text
  pub host : Text
  pub http_port : ℕ
  pub peer_port : ℕ
  pub priority : ℕ

abbrev pub Config : Type 0
Config = List Server

-- `none` is the panic of a configuration that lacks the id.
unfoldable pub get_config_for : Config → Text → Option Server
get_config_for [] id = none
get_config_for (server ∷ config) id =
    if server.id == id then some server else get_config_for config id

-- The loop, over the priorities met so far; `none` is the panic.
validate_from : HashMap ℕ (Unit {0}) → Config → Option (Unit {0})
validate_from priorities [] = some tt
validate_from priorities (server ∷ config) =
    let rest = validate_from (HashMap.insert server.priority tt priorities) config in
    if HashMap.contains_key server.priority priorities then none else rest

unfoldable pub validate_config : Config → Option (Unit {0})
unfolding validate_from
validate_config config = validate_from [] config

abbrev pub priorities_of : Config → List ℕ
priorities_of [] = []
priorities_of (server ∷ config) = server.priority ∷ priorities_of config

-- None of the priorities was met before.
abbrev Fresh : HashMap ℕ (Unit {0}) → List ℕ → Type 0
Fresh seen [] = Unit
Fresh seen (p ∷ ps) = (HashMap.contains_key p seen ≡ false) × Fresh seen ps

Fresh-insert :
    (seen : HashMap ℕ (Unit {0})) (p : ℕ) (ps : List ℕ)
    → Fresh (HashMap.insert p tt seen) ps ↔ (Fresh seen ps × (contains p ps ≡ false))
unfolding contains
Fresh-insert seen p [] = ((λ h. (tt, refl)), λ h. tt)
Fresh-insert seen p (q ∷ ps) =
    let at = HashMap.contains_key-insert p q tt seen in
    (
      (λ h.
          let (rest, absent) = (Fresh-insert seen p ps).0 h.1 in
          ((ground arith, rest), ground arith)),
      λ h. (ground arith, (Fresh-insert seen p ps).1 (h.0.1, ground arith)),
    )

Fresh-nil : (ps : List ℕ) → Fresh [] ps
Fresh-nil [] = tt
Fresh-nil (p ∷ ps) = (unfold HashMap.contains_key in refl, Fresh-nil ps)

validate_from_lem :
    (seen : HashMap ℕ (Unit {0})) (config : Config)
    → (validate_from seen config ≡ some tt)
      ↔ (Fresh seen (priorities_of config) × IsNodup (priorities_of config))
unfolding validate_from
validate_from_lem seen [] = ((λ h. (tt, tt)), λ h. refl)
validate_from_lem seen (server ∷ config) =
    let p = server.priority in
    let ih = validate_from_lem (HashMap.insert p tt seen) config in
    let fresh = Fresh-insert seen p (priorities_of config) in
    elim (Bool-cases (HashMap.contains_key p seen)) [
      | inl old ↦ ((λ h. ground arith), λ h. ground arith)
      | inr new ↦ (
        (λ h.
            let (f, once) = ih.0 (ground arith) in
            let (rest, absent) = fresh.0 f in ((new, rest), (absent, once))),
        λ h.
            let found : validate_from (HashMap.insert p tt seen) config ≡ some tt =
              ih.1 (fresh.1 (h.0.1, h.1.0), h.1.1) in
            ground arith,
      )
    ]

-- `validate_config` accepts exactly the configurations whose priorities are all different.
pub validate_config_iff :
    (config : Config) → (validate_config config ≡ some tt) ↔ IsNodup (priorities_of config)
unfolding validate_config
validate_config_iff config =
    let fresh : Fresh [] (priorities_of config) = Fresh-nil (priorities_of config) in
    ((λ h. ((validate_from_lem [] config).0 h).1), λ h. (validate_from_lem [] config).1 (fresh, h))
