-- ===== src/Distributed/Owners.antt =====
-- `user_owner`, `channel_owner`, and the test by which a server answers itself.
use native.Mathlib.Decide.{ℕ_discrete}
use cs.Base.{
  ℕ, ◌%◌, ◌<◌, ◌≡◌, ◌≢◌, refl, ◌⊎◌, ◌↔◌, Bool, true, not, ◌&&◌, ◌||◌, Option, none, some,
  if◌then◌else◌, ◌==◌, text_eq, nat_eq, text_beq_iff, arith, inl, inr, Bool-cases,
}
use cs.Base.Text.{Text, lit}

pub record LocationConfig : Type 0 where
  pub primary : Text
  pub backup : Text

abbrev pub a_b : LocationConfig
a_b = record { primary = lit "A"; backup = lit "B" }

abbrev pub b_c : LocationConfig
b_c = record { primary = lit "B"; backup = lit "C" }

abbrev pub c_a : LocationConfig
c_a = record { primary = lit "C"; backup = lit "A" }

-- The three-way split of a hash; `none` is the panic behind the last test.
unfoldable pub by_hash : ℕ → Option LocationConfig
by_hash h =
    if h == 0 then some a_b else if h == 1 then some b_c else if h == 2 then some c_a else none

-- The hash of the standard library's DefaultHasher, whose algorithm is not specified.
module _ (hash : Text → ℕ) where
  unfoldable pub user_owner : Text → Option LocationConfig
  unfolding by_hash
  user_owner username = by_hash (hash username % 3)

  unfoldable pub channel_owner : Text → Option LocationConfig
  unfolding by_hash
  channel_owner channel_name =
      if channel_name == lit "#cs249"
      then some a_b
      else if channel_name == lit "#distributed"
      then some b_c
      else if channel_name == lit "#systems"
      then some c_a
      else by_hash (hash channel_name % 3)

-- The server `id` answers for this location itself, by what it holds of the primary.
unfoldable pub is_authoritative : Text → (Text → Bool) → LocationConfig → Bool
is_authoritative id is_alive config =
    config.primary == id || not (is_alive config.primary) && id == config.backup

-- Where `forward_request` sends a request otherwise.
unfoldable pub forward_location : (Text → Bool) → LocationConfig → Text
forward_location is_alive config = if is_alive config.primary then config.primary else config.backup

-- One of the three pairs that the program knows.
abbrev pub IsPair : LocationConfig → Type 0
IsPair l = (l ≡ a_b) ⊎ ((l ≡ b_c) ⊎ (l ≡ c_a))

by_hash_lem : (h : ℕ) → h < 3 → (l : LocationConfig) × (by_hash h ≡ some l) × IsPair l
unfolding by_hash
by_hash_lem h small = elim (ℕ_discrete h 0) [
  | yes zero_mod ↦ (a_b, ground arith, inl refl)
  | no other ↦ elim (ℕ_discrete h 1) [
    | yes one_mod ↦ (b_c, ground arith, inr (inl refl))
    | no rest ↦ (c_a, ground arith, inr (inr refl))
  ]
]

-- Every user and every channel has an owner, one of the three pairs of servers, whatever the hash:
-- the panics behind the last tests are never reached.
pub owners_total :
    (hash : Text → ℕ) (name : Text)
    → ((l : LocationConfig) × (user_owner hash name ≡ some l) × IsPair l)
      × ((l : LocationConfig) × (channel_owner hash name ≡ some l) × IsPair l)
unfolding user_owner channel_owner
owners_total hash name =
    let hashed = by_hash_lem (hash name % 3) (omega arith) in
    (
      hashed,
      elim (Bool-cases (name == lit "#cs249")) [
        | inl cs249 ↦ (a_b, ground arith, inl refl)
        | inr not_cs249 ↦ elim (Bool-cases (name == lit "#distributed")) [
          | inl distributed ↦ (b_c, ground arith, inr (inl refl))
          | inr not_distributed ↦ elim (Bool-cases (name == lit "#systems")) [
            | inl systems ↦ (c_a, ground arith, inr (inr refl))
            | inr not_systems ↦ (hashed.0, ground (arith, hashed.1), hashed.2)
          ]
        ]
      ],
    )

-- Primary and backup are different servers.
pub pair_differs : (l : LocationConfig) → IsPair l → l.primary ≢ l.backup
unfolding lit
pair_differs l pair same = ground arith

-- A server that holds itself to be alive answers for a location itself exactly if it is the one to
-- which a server with the same view forwards: as long as the views agree there is one answering
-- server for each location, and none forwards to itself, as the assertion in `forward_request_to`
-- demands.
pub authority_iff :
    (l : LocationConfig) (id : Text) (is_alive : Text → Bool)
    → is_alive id ≡ true
    → (is_authoritative id is_alive l ≡ true) ↔ (id ≡ forward_location is_alive l)
unfolding is_authoritative forward_location
authority_iff l id is_alive up = (
  (λ h. ground (arith, text_beq_iff l.primary id, text_beq_iff id l.backup)),
  λ h. ground (arith, text_beq_iff l.primary id, text_beq_iff id l.backup),
)
