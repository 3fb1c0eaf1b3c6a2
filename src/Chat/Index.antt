-- ===== src/Chat/Index.antt =====
-- The two views of membership, by channel and by user, and their agreement.
use cs.Base.{
  ◌≡◌, refl, Bool, true, ◌&&◌, ◌||◌, none, some, List, [], arith, if◌then◌else◌, ◌==◌, text_eq,
  text_beq_iff, inl, inr, Bool-cases,
}
use mathlib.Core.Path.{subst}
use cs.Base.HashSet
use cs.Base.HashSet.{HashSet, IsNodup}
use cs.Base.HashMap
use cs.Base.Text.{Text}
use cs.Chat.Types.{Message, Channel, AppState, new_app_state}
use cs.Chat.Operations.{
  user_exists, channel_name_is_valid, channel_exists, set_channel, set_user_channels,
}

unfoldable pub members : AppState → Text → HashSet Text
members s c = elim (HashMap.get c s.channels) [ none ↦ [] | some ch ↦ ch.users ]

unfoldable pub channels_of : AppState → Text → HashSet Text
channels_of s u = elim (HashMap.get u s.user_channels) [ none ↦ [] | some cs' ↦ cs' ]

unfoldable pub messages : AppState → Text → List Message
messages s c = elim (HashMap.get c s.channels) [ none ↦ [] | some ch ↦ ch.messages ]

unfoldable pub is_member : AppState → Text → Text → Bool
unfolding members
is_member s c u = HashSet.contains u (members s c)

unfoldable pub is_indexed : AppState → Text → Text → Bool
unfolding channels_of
is_indexed s u c = HashSet.contains c (channels_of s u)

-- The sets of channels list exactly the channels that the user is a member of, each once; a user
-- has an entry exactly if the user exists; and channel names begin with #.
pub record IsIndexed (s : AppState) : Type 0 where
  pub agree : (u c : Text) → is_indexed s u c ≡ is_member s c u
  pub entries : (u : Text) → HashMap.contains_key u s.user_channels ≡ user_exists s u
  pub once : (u : Text) → IsNodup (channels_of s u)
  pub named : (c : Text) → channel_exists s c ≡ true → channel_name_is_valid c ≡ true

pub new_app_state-IsIndexed : IsIndexed new_app_state
unfolding is_indexed is_member HashMap.get HashMap.contains_key user_exists channel_exists
new_app_state-IsIndexed = record {
  agree = λ u c. unfold HashSet.contains in refl;
  entries = λ u. unfold HashSet.contains in refl;
  once = λ u. tt;
  named = λ c h. cc;
}

-- The membership of u in c is set to b in both views, and nothing else changes.
pub record Toggled (u c : Text) (b : Bool) (s s' : AppState) : Type 0 where
  pub members : (d v : Text) → is_member s' d v ≡ (if c == d && u == v then b else is_member s d v)
  pub index : (d v : Text) → is_indexed s' v d ≡ (if c == d && u == v then b else is_indexed s v d)
  pub entries :
      (v : Text) → HashMap.contains_key v s'.user_channels ≡ HashMap.contains_key v s.user_channels
  pub users : (v : Text) → user_exists s' v ≡ user_exists s v
  pub once : (v : Text) → IsNodup (channels_of s v) → IsNodup (channels_of s' v)
  pub channels : (d : Text) → channel_exists s' d ≡ (channel_exists s d || c == d)
  pub messages : (d : Text) → messages s' d ≡ messages s d
  pub counter : s'.next_message_id ≡ s.next_message_id

pub Toggled-IsIndexed :
    {u c : Text} {b : Bool} {s s' : AppState}
    → channel_name_is_valid c ≡ true
    → Toggled u c b s s'
    → IsIndexed s
    → IsIndexed s'
Toggled-IsIndexed {u} {c} {b} {s} {s'} good t h = record {
  agree = λ v d. ground (arith, t.members d v, t.index d v, h.agree v d);
  entries = λ v. ground (arith, t.entries v, t.users v, h.entries v);
  once = λ v. t.once v (h.once v);
  named = λ d e. ground (arith, t.channels d, h.named d, text_beq_iff c d);
}

-- The two writes of `join_channel` and `leave_channel`.
module _ (u c : Text) (b : Bool) (s : AppState) (ch : Channel) (own own' : HashSet Text)
    (there : HashMap.get u s.user_channels ≡ some own)
    (in_channel : (v : Text)
      → HashSet.contains v ch.users ≡ (if u == v then b else is_member s c v))
    (same_messages : ch.messages ≡ messages s c)
    (in_own : (d : Text) → HashSet.contains d own' ≡ (if c == d then b else HashSet.contains d own))
    (own_once : IsNodup own → IsNodup own') where
  own_once_at :
      (v : Text) → IsNodup (channels_of s v) → IsNodup (channels_of (set_user_channels s u own') v)
  unfolding channels_of
  own_once_at v h = elim (Bool-cases (u == v)) [
    | inl same ↦
        subst IsNodup {x = own'} (ground (arith, HashMap.get-insert u v own' s.user_channels)) (
          own_once (
            subst IsNodup {x = channels_of s v} {y = own}
              (unfold channels_of in ground (arith, text_beq_iff u v)) h))
    | inr other ↦
        subst IsNodup {x = channels_of s v}
          (ground (arith, HashMap.get-insert u v own' s.user_channels)) h
  ]

  pub put-Toggled : Toggled u c b s (set_user_channels (set_channel s c ch) u own')
  unfolding is_member is_indexed channel_exists HashMap.contains_key
  put-Toggled = record {
    members =
        λ d v. ground (arith, HashMap.get-insert c d ch s.channels, in_channel v, text_beq_iff c d);
    index = λ d v.
        ground
          (arith, HashMap.get-insert u v own' s.user_channels, in_own d, text_beq_iff u v, there);
    entries =
        λ v. ground (arith, HashMap.get-insert u v own' s.user_channels, text_beq_iff u v, there);
    users = λ v. unfold user_exists in refl;
    once = own_once_at;
    channels = λ d. ground (arith, HashMap.get-insert c d ch s.channels);
    messages = λ d.
        unfold messages in
        ground (arith, HashMap.get-insert c d ch s.channels, same_messages, text_beq_iff c d);
    counter = refl;
  }
