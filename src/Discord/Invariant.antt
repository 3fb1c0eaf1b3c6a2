-- ===== src/Discord/Invariant.antt =====
-- The well-formedness of one server's state, and how a write to one channel keeps it.
use mathlib.Core.Path.{subst₂}
use cs.Base.{
  ◌≡◌, refl, true, false, some, [], inl, inr, arith, Bool-cases, Option-cases, length, ◌==◌,
  text_eq, text_beq_iff,
}
use cs.Base.HashSet
use cs.Base.HashSet.{IsNodup}
use cs.Base.HashMap
use cs.Base.Text.{Text}
use cs.Base.Decimal.{usize_mod}
use cs.Discord.Types.{Channel, new_channel, AppState, new_app_state}
use cs.Discord.Operations.{user_exists, channel_name_is_valid, channel_exists, set_channel}
use cs.Discord.Order.{InRange}

-- Ids are those of the channel, in order and without repetition, and are as many as the counter
-- says.
pub record IsValidChannel (name : Text) (ch : Channel) : Type 0 where
  pub users_once : IsNodup ch.users
  pub ids : InRange name 0 usize_mod ch.messages
  pub counted : ch.next_message_id ≡ length ch.messages

pub channel-of_exists :
    (s : AppState) (c : Text)
    → channel_exists s c ≡ true
    → (ch : Channel) × (HashMap.get c s.channels ≡ some ch)
unfolding channel_exists HashMap.contains_key
channel-of_exists s c h = elim (Option-cases (HashMap.get c s.channels)) [
  | inl e ↦ absurd (ground arith)
  | inr there ↦ there
]

-- Besides, all numbers are below the counter: the state of a server that has every message.
abbrev pub IsDense : Text → Channel → Type 0
IsDense name ch = InRange name 0 ch.next_message_id ch.messages

pub record IsValid (s : AppState) : Type 0 where
  pub users_once : IsNodup s.users
  pub named_users : HashSet.contains [] s.users ≡ false
  pub channels_once : IsNodup (HashMap.keys s.channels)
  pub named :
      (c : Text) (ch : Channel)
      → HashMap.get c s.channels ≡ some ch
      → channel_name_is_valid c ≡ true
  pub each : (c : Text) (ch : Channel) → HashMap.get c s.channels ≡ some ch → IsValidChannel c ch

-- The rely and guarantee of a server's tasks: the state stays valid, and no channel and no user goes
-- away.
pub record Evolves (s s' : AppState) : Type 0 where
  pub valid : IsValid s → IsValid s'
  pub channels_stay : (c : Text) → channel_exists s c ≡ true → channel_exists s' c ≡ true
  pub users_stay : (u : Text) → user_exists s u ≡ true → user_exists s' u ≡ true

pub Evolves-refl : (s : AppState) → Evolves s s
Evolves-refl s = record { valid = λ h. h; channels_stay = λ c h. h; users_stay = λ u h. h }

pub Evolves-trans : {s t u : AppState} → Evolves s t → Evolves t u → Evolves s u
Evolves-trans a b = record {
  valid = λ h. b.valid (a.valid h);
  channels_stay = λ c h. b.channels_stay c (a.channels_stay c h);
  users_stay = λ u h. b.users_stay u (a.users_stay u h);
}

pub new_app_state-IsValid : IsValid new_app_state
new_app_state-IsValid = record {
  users_once = tt;
  named_users = unfold HashSet.contains in refl;
  channels_once = unfold HashMap.keys in tt;
  named = λ c ch h. unfold HashMap.get in cc;
  each = λ c ch h. unfold HashMap.get in cc;
}

pub new_channel-IsValid : (name : Text) → IsValidChannel name new_channel
new_channel-IsValid name = record { users_once = tt; ids = tt; counted = refl }

-- A property of all channels, under a write to one of them.
module _ (P : Text → Channel → Type 0) (c : Text) (ch : Channel) (m : HashMap.HashMap Text Channel)
    (others : (j : Text) (x : Channel) → HashMap.get j m ≡ some x → P j x) (this : P c ch) where
  written : (j : Text) (x : Channel) → HashMap.get j (HashMap.insert c ch m) ≡ some x → P j x
  written j x p = elim (Bool-cases (c == j)) [
    | inl same ↦
        subst₂ P ((text_beq_iff c j).0 same) (ground (arith, HashMap.get-insert c j ch m)) this
    | inr other ↦ others j x (ground (arith, HashMap.get-insert c j ch m))
  ]

-- A write to one channel.
module _ (s : AppState) (c : Text) (ch : Channel) (name_ok : channel_name_is_valid c ≡ true)
    (fits : IsValid s → IsValidChannel c ch) where
  pub set_channel-Evolves : Evolves s (set_channel s c ch)
  set_channel-Evolves = record {
    valid = λ h. record {
      users_once = h.users_once;
      named_users = h.named_users;
      channels_once = HashMap.keys-insert-IsNodup c ch s.channels h.channels_once;
      named = written (λ j x. channel_name_is_valid j ≡ true) c ch s.channels h.named name_ok;
      each = written IsValidChannel c ch s.channels h.each (fits h);
    };
    channels_stay = λ j p.
        unfold channel_exists in ground (arith, HashMap.contains_key-insert c j ch s.channels);
    users_stay = λ u p. unfold user_exists in p;
  }
