-- ===== src/Distributed/Changes.antt =====
-- The changes that a primary sends to its backup, as data, and what they do to both.
use mathlib.Core.Path.{subst}
use cs.Base.{◌≡◌, refl, sym, ap, ◌∙◌, Bool, true, false, ◌||◌, some, [], ◌==◌, text_eq, arith}
use cs.Base.HashSet
use cs.Base.HashMap
use cs.Base.Text.{Text}
use cs.Discord
use cs.Discord.{
  AppState, StateResult, ok, err, Outcome, UserExistsFn, user_exists, channel_name_is_valid,
  channel_exists,
}
use cs.Discord.Invariant.{Evolves-refl}
use cs.Discord.Users.{create_user_lem}
use cs.Discord.Members.{is_member, SameButMember}
use cs.Discord.Joining.{join_channel_lem}
use cs.Discord.Leaving.{leave_channel_lem}

pub data Change : Type 0 where
  create_user : Text → Change
  join_channel : Text → Text → Change
  leave_channel : Text → Text → Change

-- The backup does not ask again whether the user exists.
abbrev pub everyone : UserExistsFn
everyone u s = (true, s)

unfoldable pub apply : Change → AppState → Outcome (Unit {0})
apply (create_user u) s = some (Discord.create_user s u)
apply (join_channel u c) s = Discord.join_channel s u c everyone
apply (leave_channel u c) s = Discord.leave_channel s u c everyone

-- Two servers that know the same users and show the same members of each channel.
pub record Agree (s t : AppState) : Type 0 where
  pub users : (v : Text) → user_exists t v ≡ user_exists s v
  pub members : (d v : Text) → is_member t d v ≡ is_member s d v

Agree-SameButMember :
    (c u : Text) (b : Bool) (s s' t t' : AppState)
    → Agree s t
    → SameButMember c u b s s'
    → SameButMember c u b t t'
    → Agree s' t'
unfolding user_exists
Agree-SameButMember c u b s s' t t' agree ss tt' = record {
  users = λ v. rw (ss.same_users, tt'.same_users) (agree.users v);
  members = λ d v. rw (ss.members d v, tt'.members d v, agree.members d v) refl;
}

-- What a successful change says of the state before it and of the one after it.
abbrev Possible : Change → AppState → Type 0
Possible (create_user u) s = ((u == []) ≡ false) × (user_exists s u ≡ false)
Possible (join_channel u c) s = (channel_name_is_valid c ≡ true) × (is_member s c u ≡ false)
Possible (leave_channel u c) s = (channel_name_is_valid c ≡ true) × (is_member s c u ≡ true)

abbrev Changed : Change → AppState → AppState → Type 0
Changed (create_user u) s s' =
    ((v : Text) → user_exists s' v ≡ (user_exists s v || u == v)) × (s'.channels ≡ s.channels)
Changed (join_channel u c) s s' = SameButMember c u true s s'
Changed (leave_channel u c) s s' = SameButMember c u false s s'

-- Behind a result that is known.
outcome_unique :
    (o : Outcome (Unit {0})) (a b : AppState × StateResult (Unit {0}))
    → o ≡ some a
    → o ≡ some b
    → (a.0 ≡ b.0) × (a.1 ≡ b.1)
outcome_unique o a b ea eb = (cc, cc)

create_user-success :
    (s s' : AppState) (u : Text)
    → Discord.create_user s u ≡ (s', ok tt)
    → Possible (create_user u) s × Changed (create_user u) s s'
create_user-success s s' u e =
    let (result, users, channels, _) = create_user_lem s u in
    let succeeds = ap (λ o. o.1) e in
    let after = ap (λ o. o.0) e in
    (
      (ground arith, ground arith),
      (λ v. ground (arith, users v), sym (ap (λ t. t.channels) after) ∙ channels),
    )

join_channel-success :
    (s s' : AppState) (u c : Text)
    → Discord.join_channel s u c everyone ≡ some (s', ok tt)
    → Possible (join_channel u c) s × Changed (join_channel u c) s s'
join_channel-success s s' u c e =
    let (o, same, joins) = join_channel_lem s u c everyone in
    let (state, succeeds) = outcome_unique _ o (s', ok tt) same e in
    let result = joins.result in
    ((ground arith, ground arith), subst (SameButMember c u true s) state (joins.success succeeds))

leave_channel-success :
    (s s' : AppState) (u c : Text)
    → Discord.leave_channel s u c everyone ≡ some (s', ok tt)
    → Possible (leave_channel u c) s × Changed (leave_channel u c) s s'
leave_channel-success s s' u c e =
    let (o, same, leaves) = leave_channel_lem s u c everyone (Evolves-refl s) in
    let (state, succeeds) = outcome_unique _ o (s', ok tt) same e in
    let result = leaves.result in
    (
      (ground arith, ground arith),
      subst (SameButMember c u false s) state (leaves.success succeeds),
    )

change-success :
    (q : Change) (s s' : AppState) → apply q s ≡ some (s', ok tt) → Possible q s × Changed q s s'
unfolding apply
change-success (create_user u) s s' e =
    create_user-success s s' u
      (let (a, b) = outcome_unique _ (Discord.create_user s u) (s', ok tt) refl e in cc)
change-success (join_channel u c) s s' e = join_channel-success s s' u c e
change-success (leave_channel u c) s s' e = leave_channel-success s s' u c e

member_of_existing :
    (t : AppState) (c u : Text) → is_member t c u ≡ true → channel_exists t c ≡ true
unfolding is_member channel_exists HashMap.contains_key HashSet.contains
member_of_existing t c u h = ground arith

applies :
    (q : Change) (t : AppState) → Possible q t → (t' : AppState) × (apply q t ≡ some (t', ok tt))
unfolding apply
applies (create_user u) t (some_name, new) =
    let (result, _, _, _) = create_user_lem t u in
    let succeeds : (Discord.create_user t u).1 ≡ ok tt = result ∙ rw (some_name, new) refl in
    ((Discord.create_user t u).0, rw (sym succeeds) refl)
applies (join_channel u c) t (name_ok, new) =
    let (o, same, joins) = join_channel_lem t u c everyone in
    let succeeds : o.1 ≡ ok tt = joins.result ∙ rw (name_ok, new) refl in
    (o.0, same ∙ rw (sym succeeds) refl)
applies (leave_channel u c) t (name_ok, member) =
    let (o, same, leaves) = leave_channel_lem t u c everyone (Evolves-refl t) in
    let there = member_of_existing t c u member in
    let succeeds : o.1 ≡ ok tt = leaves.result ∙ rw (name_ok, there, member) refl in
    (o.0, same ∙ rw (sym succeeds) refl)

Possible-Agree : (q : Change) (s t : AppState) → Agree s t → Possible q s → Possible q t
Possible-Agree (create_user u) s t agree (named, new) = (named, agree.users u ∙ new)
Possible-Agree (join_channel u c) s t agree (named, new) = (named, agree.members c u ∙ new)
Possible-Agree (leave_channel u c) s t agree (named, old) = (named, agree.members c u ∙ old)

Changed-Agree :
    (q : Change) (s s' t t' : AppState) → Agree s t → Changed q s s' → Changed q t t' → Agree s' t'
unfolding is_member
Changed-Agree (create_user u) s s' t t' agree (users, channels) (users', channels') = record {
  users = λ v. rw (users v, users' v, agree.users v) refl;
  members = λ d v. rw (channels, channels') (agree.members d v);
}
Changed-Agree (join_channel u c) s s' t t' agree ss tt' =
    Agree-SameButMember c u true s s' t t' agree ss tt'
Changed-Agree (leave_channel u c) s s' t t' agree ss tt' =
    Agree-SameButMember c u false s s' t t' agree ss tt'

-- A change that succeeds at the primary succeeds at a backup that agrees with it, and they agree
-- afterwards.
pub apply-Agree :
    (q : Change) (s s' t : AppState)
    → Agree s t
    → apply q s ≡ some (s', ok tt)
    → (t' : AppState) × (apply q t ≡ some (t', ok tt)) × Agree s' t'
apply-Agree q s s' t agree e =
    let (possible, changed) = change-success q s s' e in
    let (t', e') = applies q t (Possible-Agree q s t agree possible) in
    (t', e', Changed-Agree q s s' t t' agree changed (change-success q t t' e').1)
