-- ===== src/Chat/Runs.antt =====
-- Any sequence of calls of the operations, from the empty state.
use mathlib.Core.Path.{subst}
use cs.Base.{
  ℕ, suc, ◌<◌, ◌≤◌, ◌≡◌, refl, Bool, Option, none, some, List, [], ◌∷◌, ◌++◌, arith, inl, inr,
  Bool-cases, ◌==◌, text_eq, length, ap, sym,
}
use cs.Base.HashMap
use cs.Base.Text.{Text}
use cs.Base.Decimal.{usize_mod}
use cs.Chat.Types.{AppState, new_app_state, StateResult, Outcome}
use cs.Chat.Operations.{create_user, join_channel, leave_channel, leave_all_channels, send_message}
use cs.Chat.Index.{messages, IsIndexed, new_app_state-IsIndexed}
use cs.Chat.Users.{create_user_lem}
use cs.Chat.Changes.{is_ok, join_channel_both_views, leave_channel_both_views, Moves}
use cs.Chat.Departure.{leave_all_channels_lem}
use cs.Chat.History.{
  IsNumbered, message_at, Ascends, Ascends-later, Ascends-snoc, Sent, Sends, send_message_numbered,
  Sent-IsIndexed,
}

pub data Call : Type 0 where
  creates : Text → Call
  joins : Text → Text → Call
  leaves : Text → Text → Call
  departs : Text → Call
  sends : Text → Text → Text → Call

abbrev state_of : {A : Type 0} → Outcome A → Option AppState
state_of none = none
state_of (some (s, r)) = some s

-- The state that a call leaves; `none` is a panic.
abbrev pub perform : Call → AppState → Option AppState
perform (creates u) s = some (create_user s u).0
perform (joins u c) s = state_of (join_channel s u c)
perform (leaves u c) s = state_of (leave_channel s u c)
perform (departs u) s = leave_all_channels s u
perform (sends c u text) s = state_of (send_message s c u text)

-- The latest call stands first.
unfoldable pub after : List Call → Option AppState
after [] = some new_app_state
after (call ∷ calls) = elim (after calls) [ none ↦ none | some s ↦ perform call s ]

pub record IsSound (n : ℕ) (s : AppState) : Type 0 where
  pub indexed : IsIndexed s
  pub numbered : IsNumbered s
  pub few : s.next_message_id ≤ n

-- A call that neither writes a message nor counts.
module _ (n : ℕ) (s s' : AppState) (h : IsSound n s) where
  quiet-IsSound :
      IsIndexed s'
      → ((c : Text) → messages s' c ≡ messages s c)
      → s'.next_message_id ≡ s.next_message_id
      → IsSound (suc n) s'
  quiet-IsSound i log counter = record {
    indexed = i;
    numbered = λ c. rw (log c, counter) (h.numbered c);
    few = omega (arith, h.few, counter);
  }

  moved-IsSound :
      {u c : Text} {b : Bool} {r : StateResult (Unit {0})}
      → IsIndexed s'
      → Moves u c b s s' r
      → IsSound (suc n) s'
  moved-IsSound {r = r} i m = elim (Bool-cases (is_ok r)) [
    | inl good ↦ let t = m.success good in quiet-IsSound i t.messages t.counter
    | inr bad ↦
        let same = m.failure bad in
        quiet-IsSound i (λ c. ap (λ t. messages t c) same) (ap (λ t. t.next_message_id) same)
  ]

  module _ {u c text : Text} (t : Sent c (message_at s u text) s s') where
    sent-counter : suc n < usize_mod → s'.next_message_id ≡ suc s.next_message_id
    sent-counter room = omega (arith, t.counter, h.few)

    sent-IsNumbered : suc n < usize_mod → IsNumbered s'
    sent-IsNumbered room d =
        let old = h.numbered d in
        rw (sent-counter room) (elim (Bool-cases (c == d)) [
          | inl same ↦
              subst (Ascends 0 (suc s.next_message_id))
                {x = messages s d ++ message_at s u text ∷ []} (ground (arith, t.appended d))
                (Ascends-snoc 0 (messages s d) (message_at s u text) (omega arith) old)
          | inr other ↦
              subst (Ascends 0 (suc s.next_message_id)) {x = messages s d}
                (ground (arith, t.appended d))
                (Ascends-later 0 s.next_message_id (suc s.next_message_id) (messages s d)
                  (omega arith) old)
        ])

  sent-IsSound :
      {u c text : Text} {r : StateResult ℕ}
      → suc n < usize_mod
      → Sends c u text s s' r
      → IsSound (suc n) s'
  sent-IsSound {u} {c} {text} {r = r} room m = elim (Bool-cases (is_ok r)) [
    | inl good ↦
        let t = m.success good in
        record {
          indexed = Sent-IsIndexed t h.indexed;
          numbered = sent-IsNumbered {u = u} {text = text} t room;
          few = omega (arith, h.few, sent-counter {u = u} {text = text} t room);
        }
    | inr bad ↦
        let same = m.failure bad in
        quiet-IsSound (subst IsIndexed (sym same) h.indexed) (λ c. ap (λ t. messages t c) same)
          (ap (λ t. t.next_message_id) same)
  ]

-- A call on a sound state returns, and leaves a sound state.
perform_lem :
    (call : Call) (n : ℕ) (s : AppState)
    → suc n < usize_mod
    → IsSound n s
    → (s' : AppState) × (perform call s ≡ some s') × IsSound (suc n) s'
perform_lem (creates u) n s room h =
    let (result, users, members, log, counter, i) = create_user_lem s u h.indexed in
    ((create_user s u).0, refl, quiet-IsSound n s _ h i log counter)
perform_lem (joins u c) n s room h =
    let (o, e, result, moves, i) = join_channel_both_views s u c h.indexed in
    (o.0, ground (arith, e), moved-IsSound n s o.0 h i moves)
perform_lem (leaves u c) n s room h =
    let (o, e, result, moves, i) = leave_channel_both_views s u c h.indexed in
    (o.0, ground (arith, e), moved-IsSound n s o.0 h i moves)
perform_lem (departs u) n s room h =
    let (s', e, gone) = leave_all_channels_lem s u h.indexed in
    (s', e, quiet-IsSound n s s' h gone.indexed gone.messages gone.counter)
perform_lem (sends c u text) n s room h =
    let (o, e, sent) = send_message_numbered s c u text in
    (o.0, ground (arith, e), sent-IsSound n s o.0 h room sent)

new_app_state-IsSound : IsSound 0 new_app_state
new_app_state-IsSound = record {
  indexed = new_app_state-IsIndexed;
  numbered = λ c. unfold messages HashMap.get in tt;
  few = omega arith;
}

-- No sequence of calls from the empty state panics, whatever their arguments: after fewer than 2^64
-- of them there is a state, in which the two views of membership agree, each user has an entry, and
-- the ids of each channel's messages ascend strictly and are below the counter.
pub after-IsSound :
    (calls : List Call)
    → length calls < usize_mod
    → (s : AppState) × (after calls ≡ some s) × IsSound (length calls) s
unfolding after
after-IsSound [] short = (new_app_state, refl, new_app_state-IsSound)
after-IsSound (call ∷ calls) short =
    let (s, e, h) = after-IsSound calls (omega arith) in
    let (s', e', h') = perform_lem call (length calls) s short h in (s', ground (arith, e, e'), h')
