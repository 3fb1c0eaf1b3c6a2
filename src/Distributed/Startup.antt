-- ===== src/Distributed/Startup.antt =====
-- `init_state`: the channels that exist on startup. (The hook for requests is registered here too.)
use cs.Base.{
  ℕ, ◌≡◌, refl, Bool, true, false, ◌&&◌, ◌||◌, Option, none, some, [], ◌∷◌, if◌then◌else◌, ◌==◌,
  text_eq, text_beq, text_beq_iff, arith,
}
use cs.Base.HashMap
use cs.Base.Text.{Text, lit}
use cs.Discord.{
  AppState, new_app_state, new_channel, StateResult, ok, err, create_channel, channel_exists,
}
use cs.Distributed.Owners.{LocationConfig, a_b, b_c, c_a, channel_owner}

abbrev unwrap_created : AppState × StateResult (Unit {0}) → Option AppState
unwrap_created (s, ok _) = some s
unwrap_created (s, err _) = none

-- Two calls of `create_channel`, each with its `unwrap`.
create_two : AppState → Text → Text → Option AppState
create_two s c d = elim (unwrap_created (create_channel s c)) [
  | none ↦ none
  | some s' ↦ unwrap_created (create_channel s' d)
]

unfoldable pub init_state : Text → AppState → Option AppState
unfolding create_two
init_state id s =
    if id == lit "A"
    then create_two s (lit "#systems") (lit "#cs249")
    else if id == lit "B"
    then create_two s (lit "#cs249") (lit "#distributed")
    else if id == lit "C"
    then create_two s (lit "#distributed") (lit "#systems")
    else none

-- The server is the primary or the backup of the channel.
abbrev pub serves : Text → Option LocationConfig → Bool
serves id none = false
serves id (some l) = l.primary == id || l.backup == id

abbrev pub is_startup_channel : Text → Bool
is_startup_channel c = c == lit "#cs249" || (c == lit "#distributed" || c == lit "#systems")

abbrev with_channels : Text → Text → AppState
with_channels c d = record { users = []; channels = (c, new_channel) ∷ (d, new_channel) ∷ [] }

init_A : init_state (lit "A") new_app_state ≡ some (with_channels (lit "#systems") (lit "#cs249"))
unfolding init_state create_channel channel_exists HashMap.contains_key HashMap.get HashMap.insert
    lit text_beq
init_A = refl

init_B :
    init_state (lit "B") new_app_state ≡ some (with_channels (lit "#cs249") (lit "#distributed"))
unfolding init_state create_channel channel_exists HashMap.contains_key HashMap.get HashMap.insert
    lit text_beq
init_B = refl

init_C :
    init_state (lit "C") new_app_state ≡ some (with_channels (lit "#distributed") (lit "#systems"))
unfolding init_state create_channel channel_exists HashMap.contains_key HashMap.get HashMap.insert
    lit text_beq
init_C = refl

exists-with_channels : (c d x : Text) → channel_exists (with_channels c d) x ≡ (x == c || x == d)
unfolding channel_exists HashMap.contains_key HashMap.get
exists-with_channels c d x =
    ground (arith, text_beq_iff c x, text_beq_iff d x, text_beq_iff x c, text_beq_iff x d)

-- A server's set-up is right: it starts, and of the three startup channels it creates exactly those
-- for which `channel_owner` makes it the primary or the backup, and no other channel.
abbrev pub StartsRight : (Text → ℕ) → Text → Type 0
StartsRight hash id =
    (s : AppState) × (init_state id new_app_state ≡ some s)
    × ((c : Text) → channel_exists s c ≡ (is_startup_channel c && serves id (channel_owner hash c)))

module _ (hash : Text → ℕ) (c : Text) where
  serves_startup :
      (id : Text)
      → (is_startup_channel c && serves id (channel_owner hash c)) ≡ (
          if c == lit "#cs249"
          then serves id (some a_b)
          else if c == lit "#distributed"
          then serves id (some b_c)
          else if c == lit "#systems"
          then serves id (some c_a)
          else false)
  unfolding channel_owner
  serves_startup id = ground arith

differ : (a b c : Text) → text_beq a b ≡ false → (c == a) ≡ true → (c == b) ≡ false
differ a b c other same = ground (arith, text_beq_iff a b, text_beq_iff c a, text_beq_iff c b)

abbrev ServesAs : Text → Bool → Bool → Bool → Type 0
ServesAs id ab bc ca =
    (serves id (some a_b) ≡ ab) × (serves id (some b_c) ≡ bc) × (serves id (some c_a) ≡ ca)

serves_A : ServesAs (lit "A") true false true
unfolding lit text_beq
serves_A = (refl, refl, refl)

serves_B : ServesAs (lit "B") true true false
unfolding lit text_beq
serves_B = (refl, refl, refl)

serves_C : ServesAs (lit "C") false true true
unfolding lit text_beq
serves_C = (refl, refl, refl)

abbrev Distinct : Type 0
Distinct =
    (text_beq (lit "#cs249") (lit "#distributed") ≡ false)
    × (text_beq (lit "#cs249") (lit "#systems") ≡ false)
    × (text_beq (lit "#distributed") (lit "#systems") ≡ false)

distinct : Distinct
unfolding lit text_beq
distinct = (refl, refl, refl)

-- Each of the servers A, B and C starts without a panic, and of the three startup channels it
-- creates exactly those for which `channel_owner` makes it the primary or the backup, and no other.
pub init-StartsRight :
    (hash : Text → ℕ)
    → StartsRight hash (lit "A") × StartsRight hash (lit "B") × StartsRight hash (lit "C")
init-StartsRight hash =
    let (cd, cs', ds) = distinct in
    (
      (
        with_channels (lit "#systems") (lit "#cs249"),
        init_A,
        λ c. ground (
          arith,
          exists-with_channels (lit "#systems") (lit "#cs249") c,
          serves_startup hash c (lit "A"),
          serves_A,
          differ (lit "#cs249") (lit "#distributed") c cd,
          differ (lit "#distributed") (lit "#systems") c ds,
        ),
      ),
      (
        with_channels (lit "#cs249") (lit "#distributed"),
        init_B,
        λ c. ground (
          arith,
          exists-with_channels (lit "#cs249") (lit "#distributed") c,
          serves_startup hash c (lit "B"),
          serves_B,
        ),
      ),
      (
        with_channels (lit "#distributed") (lit "#systems"),
        init_C,
        λ c. ground (
          arith,
          exists-with_channels (lit "#distributed") (lit "#systems") c,
          serves_startup hash c (lit "C"),
          serves_C,
          differ (lit "#cs249") (lit "#distributed") c cd,
          differ (lit "#cs249") (lit "#systems") c cs',
        ),
      ),
    )
