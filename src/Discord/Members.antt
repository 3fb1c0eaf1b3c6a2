-- ===== src/Discord/Members.antt =====
-- `join_channel` and `leave_channel`.
use mathlib.Core.Path.{subst}
use cs.Base.{
  ℕ, ◌||◌, ◌≡◌, refl, Bool, true, false, ◌&&◌, Option, none, some, List, [], ◌∷◌, inl, inr, arith,
  if◌then◌else◌, Bool-cases, Option-cases, ◌==◌, text_eq, text_beq_iff,
}
use cs.Base.HashSet
use cs.Base.HashMap
use cs.Base.Text.{Text}
use cs.Discord.Types.{Message, Channel, new_channel, AppState, StateResult, ok, err}
use cs.Discord.Operations.{already_member, join_channel_known, set_channel, channel_exists}
use cs.Discord.Users.{is_ok}

-- What a channel shows: its members and its messages, none for a channel that is not there.
abbrev pub users_of : Option Channel → List Text
users_of none = []
users_of (some ch) = ch.users

abbrev pub messages_of : Option Channel → List Message
messages_of none = []
messages_of (some ch) = ch.messages

unfoldable pub is_member : AppState → Text → Text → Bool
is_member s c u = HashSet.contains u (users_of (HashMap.get c s.channels))

unfoldable pub members : AppState → Text → List Text
members s c = users_of (HashMap.get c s.channels)

unfoldable pub messages : AppState → Text → List Message
messages s c = messages_of (HashMap.get c s.channels)

-- The counter of a channel, 0 for a channel that is not there.
abbrev next_of : Option Channel → ℕ
next_of none = 0
next_of (some ch) = ch.next_message_id

unfoldable pub next_id : AppState → Text → ℕ
next_id s c = next_of (HashMap.get c s.channels)

-- The server changed in one respect: whether u is a member of c, which is made if need be when u
-- becomes one. The users, and the messages and the counter of each channel, are as before.
pub record SameButMember (c u : Text) (b : Bool) (s s' : AppState) : Type 0 where
  pub members : (d v : Text) → is_member s' d v ≡ (if c == d && u == v then b else is_member s d v)
  pub same_messages : (d : Text) → messages s' d ≡ messages s d
  pub same_users : s'.users ≡ s.users
  pub same_counters : (d : Text) → next_id s' d ≡ next_id s d
  pub channels : (d : Text) → channel_exists s' d ≡ (channel_exists s d || b && c == d)

-- A state in which one channel was overwritten by one that differs in that user at most.
module _ (u c : Text) (b : Bool) (t t' : AppState) (ch : Channel)
    (written : (d : Text)
      → HashMap.get d t'.channels ≡ (if c == d then some ch else HashMap.get d t.channels))
    (the_users : (v : Text) → HashSet.contains v ch.users ≡ (if u == v then b else is_member t c v))
    (the_messages : ch.messages ≡ messages t c) (the_counter : ch.next_message_id ≡ next_id t c)
    (there : (b || channel_exists t c) ≡ true) (same : t'.users ≡ t.users) where
  pub SameButMember-of_write : SameButMember c u b t t'
  SameButMember-of_write = record {
    members = λ d v. unfold is_member in ground (arith, written d, the_users v, text_beq_iff c d);
    same_messages = λ d. unfold messages in ground (arith, written d, text_beq_iff c d);
    same_users = same;
    same_counters = λ d. unfold next_id in ground (arith, written d, text_beq_iff c d);
    channels = λ d.
        unfold channel_exists HashMap.contains_key in
        ground (arith, written d, there, text_beq_iff c d);
  }

module _ (u c : Text) (t : AppState) where
  abbrev Joined : AppState × StateResult (Unit {0}) → Type 0
  Joined (t', r) = (r ≡ ok tt) × SameButMember c u true t t'

  new_member : HashMap.get c t.channels ≡ none → Joined (join_channel_known u c t)
  unfolding join_channel_known HashMap.or_insert HashSet.insert HashSet.contains
  new_member e = subst Joined {x = (after, ok tt)} (ground arith) (
    refl,
    SameButMember-of_write u c true t after (record new_channel { users = u ∷ [] })
        (λ d. ground (
          arith,
          HashMap.get-insert c d (record new_channel { users = u ∷ [] })
              (HashMap.insert c new_channel t.channels),
          HashMap.get-insert c d new_channel t.channels,
        ))
        (λ v. unfold is_member in ground arith) (unfold messages in ground arith)
        (unfold next_id in ground arith) refl refl,
  )
    where
      after : AppState
      after =
          set_channel (record t { channels = HashMap.insert c new_channel t.channels }) c
            (record new_channel { users = u ∷ [] })

  old_channel_member :
      (ch : Channel)
      → HashMap.get c t.channels ≡ some ch
      → HashSet.contains u ch.users ≡ false
      → Joined (join_channel_known u c t)
  unfolding join_channel_known HashMap.or_insert
  old_channel_member ch e new =
      let ch' = record ch { users = HashSet.insert u ch.users } in
      subst Joined {x = (set_channel t c ch', ok tt)} (ground arith) (
        refl,
        SameButMember-of_write u c true t (set_channel t c ch') ch'
            (λ d. HashMap.get-insert c d ch' t.channels)
            (λ v. unfold is_member in ground (arith, HashSet.contains-insert u v ch.users))
            (unfold messages in ground arith) (unfold next_id in ground arith) refl refl,
      )

  -- Behind its two checks, `join_channel` adds the user to the channel, making the channel if need
  -- be, or refuses a member and changes nothing.
  pub join_channel_known_lem :
      let (t', r) = join_channel_known u c t in
      (r ≡ (if is_member t c u then err already_member else ok tt))
      × (r ≡ ok tt → SameButMember c u true t t')
      × (is_ok r ≡ false → t' ≡ t)
  join_channel_known_lem = elim (Option-cases (HashMap.get c t.channels)) [
    | inl e ↦ (
      unfold is_member HashSet.contains in ground (arith, new_member e),
      λ _. (new_member e).1,
      λ h. cc ((new_member e).0),
    )
    | inr (ch, e) ↦ elim (Bool-cases (HashSet.contains u ch.users)) [
      | inl old ↦
          unfold is_member join_channel_known HashMap.or_insert in
          (ground arith, ground arith, ground arith)
      | inr new ↦ (
        unfold is_member in ground (arith, old_channel_member ch e new),
        λ _. (old_channel_member ch e new).1,
        λ h. cc ((old_channel_member ch e new).0),
      )
    ]
  ]
