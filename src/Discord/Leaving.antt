-- ===== src/Discord/Leaving.antt =====
-- `leave_channel` as a whole: every branch, and what it keeps.
use mathlib.Core.Path.{subst}
use cs.Base.{
  ◌≡◌, refl, Bool, true, false, not, ◌&&◌, some, inl, inr, arith, if◌then◌else◌, Bool-cases,
  text_eq,
}
use cs.Base.HashSet
use cs.Base.HashMap
use cs.Base.Text.{Text}
use cs.Discord.Types.{Channel, AppState, StateResult, ok, err, UserExistsFn}
use cs.Discord.Operations.{
  unknown_user, invalid_channel_name, unknown_channel, no_such_member, channel_name_is_valid,
  channel_exists, leave_channel_known, leave_channel, set_channel,
}
use cs.Discord.Invariant.{
  Evolves, Evolves-refl, Evolves-trans, set_channel-Evolves, channel-of_exists,
}
use cs.Discord.Users.{is_ok}
use cs.Discord.Members.{is_member, messages, next_id, SameButMember, SameButMember-of_write}

-- The call gets past the checks that stand before its wait.
abbrev pub reaches_wait : AppState → Text → Bool
reaches_wait s c = channel_name_is_valid c && channel_exists s c

-- A call of `leave_channel` on s; it waits for `user_exists`, which answered `known` and left the
-- state at t, if the channel is there.
pub record Leaves (u c : Text) (s : AppState) (known : Bool) (t s' : AppState)
    (r : StateResult (Unit {0})) : Type 0 where
  pub result : r ≡ (
      if not (channel_name_is_valid c)
      then err invalid_channel_name
      else if not (channel_exists s c)
      then err unknown_channel
      else if not known
      then err unknown_user
      else if not (is_member t c u)
      then err no_such_member
      else ok tt)
  pub success : r ≡ ok tt → SameButMember c u false t s'
  pub failure : is_ok r ≡ false → s' ≡ (if reaches_wait s c then t else s)

-- Writing a channel's entry without the user.
module _ (u c : Text) (t : AppState) (ch : Channel) (e : HashMap.get c t.channels ≡ some ch) where
  abbrev without : AppState
  without = set_channel t c (record ch { users = HashSet.remove u ch.users })

  without-SameButMember : SameButMember c u false t without
  without-SameButMember =
      let ch' = record ch { users = HashSet.remove u ch.users } in
      SameButMember-of_write u c false t without ch' (λ d. HashMap.get-insert c d ch' t.channels)
        (λ v. unfold is_member in ground (arith, HashSet.contains-remove u v ch.users))
        (unfold messages in ground arith) (unfold next_id in ground arith)
        (unfold channel_exists HashMap.contains_key in ground arith) refl

  leave_known_lem :
      (o : AppState × StateResult (Unit {0})) × (leave_channel_known u c t ≡ some o)
      × (o.1 ≡ (if not (is_member t c u) then err no_such_member else ok tt))
      × (o.1 ≡ ok tt → SameButMember c u false t o.0)
      × (is_ok o.1 ≡ false → o.0 ≡ t)
  unfolding leave_channel_known
  leave_known_lem = elim (Bool-cases (HashSet.contains u ch.users)) [
    | inl member ↦ (
      (without, ok tt),
      ground arith,
      unfold is_member in ground arith,
      λ h. without-SameButMember,
      λ h. cc,
    )
    | inr stranger ↦ (
      (t, err no_such_member),
      ground arith,
      unfold is_member in ground arith,
      λ h. cc,
      λ h. refl,
    )
  ]

  leave_known-Evolves :
      channel_name_is_valid c ≡ true
      → (o : AppState × StateResult (Unit {0})) → leave_channel_known u c t ≡ some o
      → Evolves t o.0
  unfolding leave_channel_known
  leave_known-Evolves good o h = elim (Bool-cases (HashSet.contains u ch.users)) [
    | inl member ↦ subst (Evolves t) {x = without} (ground arith) (
        set_channel-Evolves t c (record ch { users = HashSet.remove u ch.users }) good
          (λ v. record {
            users_once = HashSet.remove-IsNodup u ch.users (v.each c ch e).users_once;
            ids = (v.each c ch e).ids;
            counted = (v.each c ch e).counted;
          }))
    | inr stranger ↦ subst (Evolves t) {x = t} (ground arith) (Evolves-refl t)
  ]

-- Suppose that the tasks which run while `leave_channel` waits keep the state well-formed and lose
-- no channel and no user. Then `leave_channel` returns, with the first error that applies in the
-- order of the source; on success the user is no member of the channel and nothing else has
-- changed, and on an error nothing has.
pub leave_channel_lem :
    (s : AppState) (u c : Text) (f : UserExistsFn)
    → Evolves s (f u s).1
    → (o : AppState × StateResult (Unit {0})) × (leave_channel s u c f ≡ some o)
      × Leaves u c s (f u s).0 (f u s).1 o.0 o.1
unfolding leave_channel
leave_channel_lem s u c f rely = elim (Bool-cases (reaches_wait s c)) [
  | inr early ↦ (
    (s, if not (channel_name_is_valid c) then err invalid_channel_name else err unknown_channel),
    unfold channel_name_is_valid channel_exists in ground arith,
    record { result = ground arith; success = λ h. ground arith; failure = λ h. ground arith },
  )
  | inl waits ↦ elim (Bool-cases (f u s).0) [
    | inr unknown ↦ (
      ((f u s).1, err unknown_user),
      unfold channel_name_is_valid channel_exists in ground arith,
      record { result = ground arith; success = λ h. cc; failure = λ h. ground arith },
    )
    | inl known ↦
        let (ch, e) = channel-of_exists (f u s).1 c (rely.channels_stay c (ground arith)) in
        let (o, returns, result, success, failure) = leave_known_lem u c (f u s).1 ch e in
        (
          o,
          unfold channel_name_is_valid channel_exists in ground arith,
          record {
            result = ground arith;
            success = success;
            failure = λ h. ground (arith, failure h);
          },
        )
  ]
]

-- If the other tasks that run during the wait keep the state well-formed and lose no channel and
-- no user, then so does the whole call.
pub leave_channel-Evolves :
    (s : AppState) (u c : Text) (f : UserExistsFn) (o : AppState × StateResult (Unit {0}))
    → Evolves s (f u s).1
    → leave_channel s u c f ≡ some o
    → Evolves s o.0
unfolding leave_channel
leave_channel-Evolves s u c f o rely h = elim (Bool-cases (reaches_wait s c)) [
  | inr early ↦
      subst (Evolves s) {x = s} (unfold channel_name_is_valid channel_exists in ground arith)
        (Evolves-refl s)
  | inl waits ↦ elim (Bool-cases (f u s).0) [
    | inr unknown ↦
        subst (Evolves s) {x = (f u s).1}
          (unfold channel_name_is_valid channel_exists in ground arith) rely
    | inl known ↦
        let (ch, e) = channel-of_exists (f u s).1 c (rely.channels_stay c (ground arith)) in
        Evolves-trans rely (
          leave_known-Evolves u c (f u s).1 ch e (ground arith) o
            (unfold channel_name_is_valid channel_exists in ground arith))
  ]
]
