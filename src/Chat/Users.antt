-- ===== src/Chat/Users.antt =====
-- `create_user`, and the agreement of the two views.
use mathlib.Core.Path.{subst}
use cs.Base.{
  ◌≡◌, refl, false, ◌||◌, [], arith, if◌then◌else◌, ◌==◌, text_eq, text_beq_iff, inl, inr,
  Bool-cases,
}
use cs.Base.HashSet
use cs.Base.HashSet.{HashSet, IsNodup}
use cs.Base.HashMap
use cs.Base.Text.{Text}
use cs.Chat.Types.{AppState, ok, err}
use cs.Chat.Operations.{user_exists, add_user, create_user, duplicate_user, channel_exists}
use cs.Chat.Index.{members, messages, channels_of, is_member, is_indexed, IsIndexed}

pub channels_of-add_user :
    (s : AppState) (u v : Text)
    → channels_of (add_user s u) v ≡ (if u == v then [] else channels_of s v)
unfolding channels_of add_user
channels_of-add_user s u v = ground (arith, HashMap.get-insert u v [] s.user_channels)

-- Somebody who does not exist has no entry.
no_channels :
    (s : AppState) (u : Text) → IsIndexed s → user_exists s u ≡ false → channels_of s u ≡ []
unfolding channels_of HashMap.contains_key
no_channels s u h free = ground (arith, h.entries u)

same_channels :
    (s : AppState) (u v : Text)
    → IsIndexed s
    → user_exists s u ≡ false
    → channels_of s v ≡ channels_of (add_user s u) v
same_channels s u v h free =
    ground (arith, channels_of-add_user s u v, no_channels s u h free, text_beq_iff u v)

-- The change of `create_user` for a new name.
pub add_user-IsIndexed :
    (s : AppState) (u : Text) → IsIndexed s → user_exists s u ≡ false → IsIndexed (add_user s u)
add_user-IsIndexed s u h free = record {
  agree = λ v c.
      unfold is_indexed is_member members add_user in
      rw (← same_channels s u v h free) (unfold is_indexed is_member members in h.agree v c);
  entries = λ v.
      unfold HashMap.contains_key user_exists add_user in
      ground (
        arith,
        h.entries v,
        HashMap.get-insert u v [] s.user_channels,
        HashSet.contains-insert u v s.users,
      );
  once = λ v. subst IsNodup (same_channels s u v h free) (h.once v);
  named = λ c e. h.named c (unfold channel_exists add_user in e);
}

-- `create_user` refuses a name that is taken and changes nothing then; otherwise it adds that one
-- name and leaves memberships, messages and the counter as they are; and the two views still agree.
pub create_user_lem :
    (s : AppState) (u : Text)
    → IsIndexed s
    → let (s', r) = create_user s u in
      (r ≡ (if user_exists s u then err duplicate_user else ok tt))
      × ((v : Text) → user_exists s' v ≡ (user_exists s v || u == v))
      × ((c v : Text) → is_member s' c v ≡ is_member s c v)
      × ((c : Text) → messages s' c ≡ messages s c)
      × (s'.next_message_id ≡ s.next_message_id)
      × IsIndexed s'
unfolding create_user
create_user_lem s u h = elim (Bool-cases (user_exists s u)) [
  | inl taken ↦
      rw taken (refl, λ v. ground (arith, text_beq_iff u v), λ c v. refl, λ c. refl, refl, h)
  | inr free ↦ rw free (
    refl,
    λ v.
        unfold user_exists add_user in
        ground (arith, HashSet.contains-insert u v s.users, text_beq_iff u v),
    λ c v. unfold is_member members add_user in refl,
    λ c. unfold messages add_user in refl,
    unfold add_user in refl,
    add_user-IsIndexed s u h free,
  )
]
