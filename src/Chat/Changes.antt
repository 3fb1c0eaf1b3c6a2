-- ===== src/Chat/Changes.antt =====
-- `join_channel` and `leave_channel`: every branch, and the agreement of the views.
use cs.Base.{
  ℕ, ◌≡◌, refl, Bool, true, false, not, some, [], arith, if◌then◌else◌, text_eq, inl, inr,
  Option-cases, Bool-cases,
}
use cs.Base.HashSet
use cs.Base.HashSet.{HashSet, IsNodup}
use cs.Base.HashMap
use cs.Base.Text.{Text}
use cs.Chat.Types.{Channel, new_channel, AppState, StateResult, ok, err}
use cs.Chat.Operations.{
  user_exists, channel_name_is_valid, channel_exists, set_channel, set_user_channels, join_known,
  join_channel, unknown_joiner, invalid_channel_name, already_member, leave_known, leave_channel,
  unknown_channel, unknown_user, no_such_member,
}
use cs.Chat.Index.{
  members, messages, channels_of, is_member, is_indexed, IsIndexed, Toggled, Toggled-IsIndexed,
  put-Toggled,
}

abbrev pub is_ok {ℓ} : {A : Type ℓ} → StateResult A → Bool
is_ok (ok _) = true
is_ok (err _) = false

-- An existing user's entry.
pub entry-of_exists :
    (s : AppState) (u : Text)
    → IsIndexed s
    → user_exists s u ≡ true
    → (own : HashSet Text) × (HashMap.get u s.user_channels ≡ some own)
unfolding HashMap.contains_key
entry-of_exists s u h e = elim (Option-cases (HashMap.get u s.user_channels)) [
  | inl lost ↦ absurd (ground (arith, h.entries u))
  | inr there ↦ there
]

-- Joining from the `entry` call on, in terms of the channel that is then there.
module _ (s : AppState) (u c : Text) (own : HashSet Text)
    (there : HashMap.get u s.user_channels ≡ some own) where
  abbrev joined : Channel → AppState
  joined ch =
      set_user_channels (set_channel s c (record ch { users = HashSet.insert u ch.users })) u
        (HashSet.insert c own)

  joined-Toggled :
      (ch : Channel)
      → ((v : Text) → HashSet.contains v ch.users ≡ is_member s c v)
      → ch.messages ≡ messages s c
      → Toggled u c true s (joined ch)
  joined-Toggled ch same log =
      put-Toggled u c true s (record ch { users = HashSet.insert u ch.users }) own
        (HashSet.insert c own) there
        (λ v. ground (arith, HashSet.contains-insert u v ch.users, same v)) log
        (λ d. ground (arith, HashSet.contains-insert c d own)) (HashSet.insert-IsNodup c own)

  pub join_known_lem :
      is_member s c u ≡ false
      → (s' : AppState) × (join_known s u c ≡ some (s', ok tt)) × Toggled u c true s s'
  unfolding join_known HashMap.or_insert is_member members
  join_known_lem new = elim (Option-cases (HashMap.get c s.channels)) [
    | inl absent ↦ (
      joined new_channel,
      ground (
        arith,
        HashMap.insert-insert c (record new_channel { users = HashSet.insert u [] }) new_channel
            s.channels,
      ),
      joined-Toggled new_channel (λ v. ground arith) (unfold messages in ground arith),
    )
    | inr (ch, e) ↦ (
      joined ch,
      ground arith,
      joined-Toggled ch (λ v. ground arith) (unfold messages in ground arith),
    )
  ]

  abbrev left : Channel → AppState
  left ch =
      set_user_channels (set_channel s c (record ch { users = HashSet.remove u ch.users })) u
        (HashSet.remove c own)

  left-Toggled :
      (ch : Channel)
      → ((v : Text) → HashSet.contains v ch.users ≡ is_member s c v)
      → ch.messages ≡ messages s c
      → Toggled u c false s (left ch)
  left-Toggled ch same log =
      put-Toggled u c false s (record ch { users = HashSet.remove u ch.users }) own
        (HashSet.remove c own) there
        (λ v. ground (arith, HashSet.contains-remove u v ch.users, same v)) log
        (λ d. ground (arith, HashSet.contains-remove c d own)) (HashSet.remove-IsNodup c own)

  pub leave_known_lem :
      is_member s c u ≡ true
      → (s' : AppState) × (leave_known s u c ≡ some (s', ok tt)) × Toggled u c false s s'
  unfolding leave_known is_member members
  leave_known_lem old = elim (Option-cases (HashMap.get c s.channels)) [
    | inl absent ↦ absurd (unfold HashSet.contains in ground arith)
    | inr (ch, e) ↦ (
      left ch,
      ground arith,
      left-Toggled ch (λ v. ground arith) (unfold messages in ground arith),
    )
  ]

-- A member's channel is there.
pub exists-of_member :
    (s : AppState) (c u : Text) → is_member s c u ≡ true → channel_exists s c ≡ true
unfolding is_member members channel_exists HashMap.contains_key HashSet.contains
exists-of_member s c u h = ground arith

-- A member exists, and has an entry.
pub user-of_member :
    (s : AppState) (c u : Text) → IsIndexed s → is_member s c u ≡ true → user_exists s u ≡ true
unfolding is_indexed channels_of HashMap.contains_key HashSet.contains
user-of_member s c u h m = ground (arith, h.agree u c, h.entries u)

-- A call that sets the membership of u in c to b on success.
pub record Moves (u c : Text) (b : Bool) (s s' : AppState) (r : StateResult (Unit {0}))
    : Type 0 where
  pub success : is_ok r ≡ true → Toggled u c b s s'
  pub failure : is_ok r ≡ false → s' ≡ s

unmoved : {u c : Text} {b : Bool} (s : AppState) (e : ℕ × Text) → Moves u c b s s (err e)
unmoved s e = record { success = λ h. cc; failure = λ h. refl }

moved : {u c : Text} {b : Bool} {s s' : AppState} → Toggled u c b s s' → Moves u c b s s' (ok tt)
moved t = record { success = λ h. t; failure = λ h. cc }

join_known_old :
    (s : AppState) (u c : Text)
    → is_member s c u ≡ true
    → join_known s u c ≡ some (s, err already_member)
unfolding join_known HashMap.or_insert is_member members
join_known_old s u c old = elim (Option-cases (HashMap.get c s.channels)) [
  | inl absent ↦ absurd (unfold HashSet.contains in ground arith)
  | inr (ch, e) ↦ ground arith
]

leave_known_new :
    (s : AppState) (u c : Text)
    → channel_exists s c ≡ true
    → is_member s c u ≡ false
    → leave_known s u c ≡ some (s, err no_such_member)
unfolding leave_known is_member members channel_exists HashMap.contains_key
leave_known_new s u c there new = ground arith

-- On a state whose two views of membership agree, `join_channel` does not panic, answers the first
-- error that applies, in the order of the source, and then changes nothing; on success the user
-- becomes a member of that channel, which is made if need be, in both views, and nothing else
-- changes; and the two views still agree.
pub join_channel_both_views :
    (s : AppState) (u c : Text)
    → IsIndexed s
    → (o : AppState × StateResult (Unit {0})) × (join_channel s u c ≡ some o)
      × (o.1 ≡ (
          if not (user_exists s u)
          then err unknown_joiner
          else if not (channel_name_is_valid c)
          then err invalid_channel_name
          else if is_member s c u
          then err already_member
          else ok tt))
      × Moves u c true s o.0 o.1
      × IsIndexed o.0
unfolding join_channel
join_channel_both_views s u c h = elim (Bool-cases (user_exists s u)) [
  | inr unknown ↦ ((s, err unknown_joiner), ground arith, ground arith, unmoved s _, h)
  | inl known ↦ elim (Bool-cases (channel_name_is_valid c)) [
    | inr bad ↦ ((s, err invalid_channel_name), ground arith, ground arith, unmoved s _, h)
    | inl good ↦ elim (Bool-cases (is_member s c u)) [
      | inl old ↦ (
        (s, err already_member),
        ground (arith, join_known_old s u c old),
        ground arith,
        unmoved s _,
        h,
      )
      | inr new ↦
          let (own, there) = entry-of_exists s u h known in
          let (s', e, t) = join_known_lem s u c own there new in
          ((s', ok tt), ground (arith, e), ground arith, moved t, Toggled-IsIndexed good t h)
    ]
  ]
]

-- On a state whose two views of membership agree, `leave_channel` does not panic, answers the
-- first error that applies, in the order of the source, and then changes nothing; on success the
-- user is no longer a member of that channel, in both views, and nothing else changes; and the two
-- views still agree.
pub leave_channel_both_views :
    (s : AppState) (u c : Text)
    → IsIndexed s
    → (o : AppState × StateResult (Unit {0})) × (leave_channel s u c ≡ some o)
      × (o.1 ≡ (
          if not (channel_name_is_valid c)
          then err invalid_channel_name
          else if not (channel_exists s c)
          then err unknown_channel
          else if not (user_exists s u)
          then err unknown_user
          else if not (is_member s c u)
          then err no_such_member
          else ok tt))
      × Moves u c false s o.0 o.1
      × IsIndexed o.0
unfolding leave_channel
leave_channel_both_views s u c h = elim (Bool-cases (channel_name_is_valid c)) [
  | inr bad ↦ ((s, err invalid_channel_name), ground arith, ground arith, unmoved s _, h)
  | inl good ↦ elim (Bool-cases (channel_exists s c)) [
    | inr absent ↦ ((s, err unknown_channel), ground arith, ground arith, unmoved s _, h)
    | inl present ↦ elim (Bool-cases (user_exists s u)) [
      | inr unknown ↦ ((s, err unknown_user), ground arith, ground arith, unmoved s _, h)
      | inl known ↦ elim (Bool-cases (is_member s c u)) [
        | inr new ↦ (
          (s, err no_such_member),
          ground (arith, leave_known_new s u c present new),
          ground arith,
          unmoved s _,
          h,
        )
        | inl old ↦
            let (own, there) = entry-of_exists s u h known in
            let (s', e, t) = leave_known_lem s u c own there old in
            ((s', ok tt), ground (arith, e), ground arith, moved t, Toggled-IsIndexed good t h)
      ]
    ]
  ]
]
