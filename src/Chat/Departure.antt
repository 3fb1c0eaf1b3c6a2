-- ===== src/Chat/Departure.antt =====
-- `leave_all_channels`, and what the gap between the two locks of `create_user` allows.
use mathlib.Core.Path.{subst}
use cs.Base.{
  ◌≡◌, refl, Bool, true, false, not, ◌&&◌, some, List, [], ◌∷◌, arith, ◌==◌, text_eq, text_beq_iff,
  beq_refl, inl, inr, Bool-cases,
}
use cs.Base.HashSet
use cs.Base.HashSet.{HashSet, IsNodup}
use cs.Base.HashMap
use cs.Base.Text.{Text}
use cs.Chat.Types.{AppState, ok}
use cs.Chat.Operations.{
  user_exists, add_user, channel_name_is_valid, join_channel, leave_channel, leave_each,
  leave_all_channels,
}
use cs.Chat.Index.{members, messages, channels_of, is_member, is_indexed, IsIndexed, Toggled}
use cs.Chat.Users.{add_user-IsIndexed}
use cs.Chat.Changes.{
  entry-of_exists, exists-of_member, user-of_member, join_channel_both_views,
  leave_channel_both_views,
}

-- The user u is gone from the channels of a list, and nothing else about membership has changed.
pub record Leaves (u : Text) (gone : Text → Bool) (s s' : AppState) : Type 0 where
  pub indexed : IsIndexed s'
  pub members : (c v : Text) → is_member s' c v ≡ (not (gone c && u == v) && is_member s c v)
  pub users : (v : Text) → user_exists s' v ≡ user_exists s v
  pub messages : (c : Text) → messages s' c ≡ messages s c
  pub counter : s'.next_message_id ≡ s.next_message_id

-- One call of the loop.
leave_member :
    (s : AppState) (u c : Text)
    → IsIndexed s
    → is_member s c u ≡ true
    → (s' : AppState) × (leave_channel s u c ≡ some (s', ok tt))
      × Toggled u c false s s'
      × IsIndexed s'
leave_member s u c h m =
    let (o, e, result, moves, indexed) = leave_channel_both_views s u c h in
    let there = exists-of_member s c u m in
    let good = h.named c there in
    let done : o.1 ≡ ok tt = ground (arith, result, there, good, user-of_member s c u h m) in
    (o.0, ground (arith, e, done), moves.success (rw done), indexed)

leave_each_lem :
    (cs' : List Text) (s : AppState) (u : Text)
    → IsIndexed s
    → IsNodup cs'
    → ((c : Text) → HashSet.contains c cs' ≡ true → is_member s c u ≡ true)
    → (s' : AppState) × (leave_each s u cs' ≡ some s') × Leaves u (λ c. HashSet.contains c cs') s s'
unfolding leave_each HashSet.contains
leave_each_lem [] s u h once all = (
  s,
  refl,
  record {
    indexed = h;
    members = λ c v. ground arith;
    users = λ v. refl;
    messages = λ c. refl;
    counter = refl;
  },
)
leave_each_lem (c ∷ cs') s u h once all =
    let (t, e, moves, ht) = leave_member s u c h (all c (ground (arith, beq_refl {A = Text} c))) in
    let still : (d : Text) → HashSet.contains d cs' ≡ true → is_member t d u ≡ true =
      λ d m. ground (arith, moves.members d u, all d, once.0, text_beq_iff c d) in
    let (s', e', rest) = leave_each_lem cs' t u ht once.1 still in
    (
      s',
      ground (arith, e, e'),
      record {
        indexed = rest.indexed;
        members = λ d v. ground (arith, rest.members d v, moves.members d v);
        users = λ v. ground (arith, rest.users v, moves.users v);
        messages = λ d. ground (arith, rest.messages d, moves.messages d);
        counter = ground (arith, rest.counter, moves.counter);
      },
    )

-- On a state whose two views of membership agree, `leave_all_channels` returns, so that none of
-- its `unwrap` panics: the user is then a member of no channel, the memberships of others, the
-- users, the messages and the counter are as they were, and the two views still agree.
pub leave_all_channels_lem :
    (s : AppState) (u : Text)
    → IsIndexed s
    → (s' : AppState) × (leave_all_channels s u ≡ some s') × Leaves u (λ c. true) s s'
unfolding leave_all_channels
leave_all_channels_lem s u h = elim (Bool-cases (user_exists s u)) [
  | inr unknown ↦ (
    s,
    ground arith,
    record {
      indexed = h;
      members = λ c v. ground (arith, user-of_member s c u h, text_beq_iff u v);
      users = λ v. refl;
      messages = λ c. refl;
      counter = refl;
    },
  )
  | inl known ↦
      let (own, there) = entry-of_exists s u h known in
      let listed : (c : Text) → HashSet.contains c own ≡ is_member s c u =
        λ c. unfold is_indexed channels_of in ground (arith, h.agree u c, there) in
      let once : IsNodup own =
        unfold channels_of in
        subst IsNodup {x = channels_of s u} {y = own} (ground arith) (h.once u) in
      let (s', e, leaves) = leave_each_lem own s u h once (λ c m. ground (arith, listed c)) in
      (
        s',
        ground (arith, e),
        record {
          indexed = leaves.indexed;
          members = λ c v. ground (arith, leaves.members c v, listed c, text_beq_iff u v);
          users = leaves.users;
          messages = leaves.messages;
          counter = leaves.counter;
        },
      )
]

user_exists-add_user : (s : AppState) (u : Text) → user_exists (add_user s u) u ≡ true
unfolding user_exists add_user
user_exists-add_user s u =
    ground (arith, HashSet.contains-insert u u s.users, beq_refl {A = Text} u)

is_member-add_user : (s : AppState) (u c v : Text) → is_member (add_user s u) c v ≡ is_member s c v
unfolding is_member members add_user
is_member-add_user s u c v = refl

-- The set of channels is empty after `add_user`.
leave_all-add_user :
    (t : AppState) (u : Text) → leave_all_channels (add_user t u) u ≡ some (add_user t u)
unfolding leave_all_channels leave_each
leave_all-add_user t u =
    let known = user_exists-add_user t u in
    unfold add_user in ground (arith, known, HashMap.get-insert_self u [] t.user_channels)

-- Two calls of `create_user` for one name that is free may both pass the test before either makes
-- its change. On a state whose two views agree, if the user joins a channel with a valid name
-- between the two changes, the later change empties the user's set of channels: the user is a
-- member that `leave_all_channels` does not remove.
pub create_user_race :
    (s : AppState) (u c : Text)
    → IsIndexed s
    → user_exists s u ≡ false
    → channel_name_is_valid c ≡ true
    → (t : AppState) × (join_channel (add_user s u) u c ≡ some (t, ok tt))
      × (leave_all_channels (add_user t u) u ≡ some (add_user t u))
      × (is_member (add_user t u) c u ≡ true)
create_user_race s u c h free good =
    let ha = add_user-IsIndexed s u h free in
    let (o, e, result, moves, indexed) = join_channel_both_views (add_user s u) u c ha in
    let known : user_exists (add_user s u) u ≡ true = user_exists-add_user s u in
    let new : is_member (add_user s u) c u ≡ false =
      ground (arith, is_member-add_user s u c u, user-of_member s c u h) in
    let done : o.1 ≡ ok tt = ground (arith, result, known, good, new) in
    (
      o.0,
      ground (arith, e, done),
      leave_all-add_user o.0 u,
      ground (
        arith,
        is_member-add_user o.0 u c u,
        (moves.success (rw done)).members c u,
        beq_refl {A = Text} c,
        beq_refl {A = Text} u,
      ),
    )
