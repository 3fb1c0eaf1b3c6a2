-- ===== src/Discord/Users.antt =====
-- `create_user`, `create_channel` and the reads beside them.
use cs.Base.{
  ℕ, ◌≡◌, refl, Bool, true, false, ◌&&◌, ◌||◌, some, [], ◌∷◌, inl, inr, arith, if◌then◌else◌,
  Bool-cases, ◌==◌, text_eq, text_beq,
}
use cs.Base.HashSet
use cs.Base.HashMap
use cs.Base.Text.{Text}
use cs.Discord.Types.{new_channel, AppState, StateResult, ok, err}
use cs.Discord.Operations.{
  invalid_username, duplicate_user, duplicate_channel, user_exists, create_user,
  channel_name_is_valid, channel_exists, create_channel,
}
use cs.Discord.Invariant.{Evolves, Evolves-refl, new_channel-IsValid, set_channel-Evolves}

abbrev pub is_ok {ℓ} : {A : Type ℓ} → StateResult A → Bool
is_ok (ok _) = true
is_ok (err _) = false

-- `create_user` refuses the empty name and a name that is taken, in this order, and otherwise adds
-- that one name; the channels are left alone, and an error changes nothing.
pub create_user_lem :
    (s : AppState) (u : Text)
    → let (s', r) = create_user s u in
      (r ≡ (
        if u == []
        then err invalid_username
        else if user_exists s u
        then err duplicate_user
        else ok tt))
      × ((v : Text) → user_exists s' v ≡ (user_exists s v || is_ok r && u == v))
      × (s'.channels ≡ s.channels)
      × (is_ok r ≡ false → s' ≡ s)
unfolding create_user user_exists text_beq
create_user_lem s [] = (refl, λ v. ground arith, refl, λ h. refl)
create_user_lem s (c ∷ u) = (
  ground arith,
  λ v. ground (arith, HashSet.contains-insert (c ∷ u) v s.users),
  ground arith,
  λ h. ground arith,
)

add_user-Evolves :
    (s : AppState) (c : ℕ) (u : Text)
    → Evolves s (record s { users = HashSet.insert (c ∷ u) s.users })
unfolding text_beq
add_user-Evolves s c u = record {
  valid = λ h. record {
    users_once = HashSet.insert-IsNodup (c ∷ u) s.users h.users_once;
    named_users = ground (arith, h.named_users, HashSet.contains-insert (c ∷ u) [] s.users);
    channels_once = h.channels_once;
    named = h.named;
    each = h.each;
  };
  channels_stay = λ d h. unfold channel_exists in h;
  users_stay =
      λ v h. unfold user_exists in ground (arith, HashSet.contains-insert (c ∷ u) v s.users);
}

pub create_user-Evolves : (s : AppState) (u : Text) → Evolves s (create_user s u).0
unfolding create_user
create_user-Evolves s [] = Evolves-refl s
create_user-Evolves s (c ∷ u) = elim (Bool-cases (HashSet.contains (c ∷ u) s.users)) [
  | inl old ↦ rw old (Evolves-refl s)
  | inr new ↦ rw new (add_user-Evolves s c u)
]

pub create_channel-Evolves :
    (s : AppState) (c : Text) → channel_name_is_valid c ≡ true → Evolves s (create_channel s c).0
unfolding create_channel
create_channel-Evolves s c name_ok = elim (Bool-cases (channel_exists s c)) [
  | inl old ↦ rw (old, channel_exists) (Evolves-refl s)
  | inr new ↦ rw new (set_channel-Evolves s c new_channel name_ok (λ h. new_channel-IsValid c))
]

-- `create_channel` refuses a name that is taken, and otherwise adds that one channel, empty.
pub create_channel_lem :
    (s : AppState) (c : Text)
    → let (s', r) = create_channel s c in
      (r ≡ (if channel_exists s c then err duplicate_channel else ok tt))
      × ((d : Text)
          → HashMap.get d s'.channels
            ≡ (if is_ok r && c == d then some new_channel else HashMap.get d s.channels))
      × (s'.users ≡ s.users)
unfolding create_channel
create_channel_lem s c =
    (ground arith, λ d. ground (arith, HashMap.get-insert c d new_channel s.channels), ground arith)
