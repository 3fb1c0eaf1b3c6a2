-- ===== src/Discord/Joining.antt =====
-- `join_channel` as a whole: every branch, and what it keeps.
use mathlib.Core.Path.{subst}
use cs.Base.{
  ◌≡◌, refl, Bool, true, false, not, ◌&&◌, none, some, inl, inr, arith, if◌then◌else◌, Bool-cases,
  [], Option-cases, text_eq,
}
use cs.Base.HashSet
use cs.Base.HashMap
use cs.Base.Text.{Text}
use cs.Discord.Types.{Channel, new_channel, AppState, StateResult, ok, err, UserExistsFn}
use cs.Discord.Operations.{
  unknown_user, invalid_channel_name, already_member, channel_name_is_valid, join_channel_known,
  join_channel, set_channel,
}
use cs.Discord.Invariant.{
  IsValidChannel, Evolves, Evolves-refl, Evolves-trans, set_channel-Evolves, new_channel-IsValid,
}
use cs.Discord.Users.{is_ok}
use cs.Discord.Members.{is_member, SameButMember, join_channel_known_lem}

-- A call of `join_channel` for which `user_exists` answered `known` and left the state at t.
pub record Joins (u c : Text) (known : Bool) (t s' : AppState) (r : StateResult (Unit {0}))
    : Type 0 where
  pub result : r ≡ (
      if not known
      then err unknown_user
      else if not (channel_name_is_valid c)
      then err invalid_channel_name
      else if is_member t c u
      then err already_member
      else ok tt)
  pub success : r ≡ ok tt → SameButMember c u true t s'
  pub failure : is_ok r ≡ false → s' ≡ t

-- `join_channel` always returns, with the first error that applies in the order of the source, and
-- on success the user is a member of the channel, which exists, and nothing else has changed; on an
-- error nothing has.
pub join_channel_lem :
    (s : AppState) (u c : Text) (f : UserExistsFn)
    → (o : AppState × StateResult (Unit {0})) × (join_channel s u c f ≡ some o)
      × Joins u c (f u s).0 (f u s).1 o.0 o.1
unfolding join_channel
join_channel_lem s u c f = elim (Bool-cases (f u s).0) [
  | inr unknown ↦ (
    ((f u s).1, err unknown_user),
    ground arith,
    record { result = ground arith; success = λ h. cc; failure = λ h. refl },
  )
  | inl known ↦ elim (Bool-cases (channel_name_is_valid c)) [
    | inr bad ↦ (
      ((f u s).1, err invalid_channel_name),
      ground arith,
      record { result = ground arith; success = λ h. cc; failure = λ h. refl },
    )
    | inl good ↦
        let (result, success, failure) = join_channel_known_lem u c (f u s).1 in
        (
          join_channel_known u c (f u s).1,
          unfold channel_name_is_valid in ground arith,
          record { result = ground arith; success = success; failure = failure },
        )
  ]
]

-- Adding a user to a well-formed channel.
add_user-IsValidChannel :
    (c u : Text) (ch : Channel)
    → IsValidChannel c ch
    → IsValidChannel c (record ch { users = HashSet.insert u ch.users })
add_user-IsValidChannel c u ch h = record {
  users_once = HashSet.insert-IsNodup u ch.users h.users_once;
  ids = h.ids;
  counted = h.counted;
}

module _ (u c : Text) (t : AppState) (good : channel_name_is_valid c ≡ true) where
  known_new-Evolves : HashMap.get c t.channels ≡ none → Evolves t (join_channel_known u c t).0
  unfolding join_channel_known HashMap.or_insert HashSet.insert HashSet.contains
  known_new-Evolves e =
      let ch = record new_channel { users = HashSet.insert u [] } in
      let t' = record t { channels = HashMap.insert c new_channel t.channels } in
      subst (Evolves t) {x = set_channel t' c ch} (ground arith) (
        Evolves-trans (set_channel-Evolves t c new_channel good (λ h. new_channel-IsValid c)) (
          set_channel-Evolves t' c ch good
            (λ h. add_user-IsValidChannel c u new_channel (new_channel-IsValid c))))

  known_old-Evolves :
      (ch : Channel) → HashMap.get c t.channels ≡ some ch → Evolves t (join_channel_known u c t).0
  unfolding join_channel_known HashMap.or_insert
  known_old-Evolves ch e =
      let ch' = record ch { users = HashSet.insert u ch.users } in
      elim (Bool-cases (HashSet.contains u ch.users)) [
        | inl old ↦ subst (Evolves t) {x = t} (ground arith) (Evolves-refl t)
        | inr new ↦
            subst (Evolves t) {x = set_channel t c ch'} (ground arith) (
              set_channel-Evolves t c ch' good
                (λ h. add_user-IsValidChannel c u ch (h.each c ch e)))
      ]

  known-Evolves : Evolves t (join_channel_known u c t).0
  known-Evolves = elim (Option-cases (HashMap.get c t.channels)) [
    | inl e ↦ known_new-Evolves e
    | inr (ch, e) ↦ known_old-Evolves ch e
  ]

-- If the other tasks that run during the wait keep the state well-formed and lose no channel and
-- no user, then so does the whole call.
pub join_channel-Evolves :
    (s : AppState) (u c : Text) (f : UserExistsFn) (o : AppState × StateResult (Unit {0}))
    → Evolves s (f u s).1
    → join_channel s u c f ≡ some o
    → Evolves s o.0
unfolding join_channel
join_channel-Evolves s u c f o rely e =
    Evolves-trans rely (elim (Bool-cases ((f u s).0 && channel_name_is_valid c)) [
      | inl both ↦
          subst (Evolves (f u s).1) {x = (join_channel_known u c (f u s).1).0}
            (unfold channel_name_is_valid in ground arith)
            (known-Evolves u c (f u s).1 (ground arith))
      | inr one ↦
          subst (Evolves (f u s).1) {x = (f u s).1} (unfold channel_name_is_valid in ground arith)
            (Evolves-refl (f u s).1)
    ])
