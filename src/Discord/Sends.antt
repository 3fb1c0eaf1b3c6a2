-- ===== src/Discord/Sends.antt =====
-- `send_message` as a whole: every branch, and what it keeps.
use mathlib.Core.Path.{subst}
use cs.Base.{
  ◌+◌, ◌<◌, ◌≡◌, Bool, true, false, not, some, inl, inr, arith, if◌then◌else◌, Bool-cases, text_eq,
}
use cs.Base.HashMap
use cs.Base.HashSet
use cs.Base.Text.{Text}
use cs.Base.Decimal.{usize_mod}
use cs.Discord.Types.{Message, Channel, AppState, StateResult, ok, err, UserExistsFn}
use cs.Discord.Messages.{format_id, message_from}
use cs.Discord.Operations.{
  unknown_user, invalid_channel_name, unknown_channel, not_authorized, channel_name_is_valid,
  channel_exists, send_message_known, send_message, set_channel, add_usize,
}
use cs.Discord.Order.{find}
use cs.Discord.Insertion.{insert_message-Inserted, InRange-ext}
use cs.Discord.Numbering.{message_from-HasId}
use cs.Discord.Invariant.{
  IsValidChannel, IsDense, Evolves, Evolves-refl, Evolves-trans, channel-of_exists,
}
use cs.Discord.Users.{is_ok}
use cs.Discord.Members.{is_member, messages}
use cs.Discord.Leaving.{reaches_wait}
use cs.Discord.Members.{next_id}
use cs.Discord.Sending.{SameButMessage, send_known_lem, send_known-Evolves}

-- A call of `send_message` on s; it waits for `user_exists`, which answered `known` and left the
-- state at t, if the channel is there.
pub record Sends (c u text : Text) (s : AppState) (known : Bool) (t s' : AppState)
    (r : StateResult Text) : Type 0 where
  pub result : r ≡ (
      if not (channel_name_is_valid c)
      then err invalid_channel_name
      else if not (channel_exists s c)
      then err unknown_channel
      else if not known
      then err unknown_user
      else if not (is_member t c u)
      then err not_authorized
      else ok (format_id c (next_id t c)))
  pub success : is_ok r ≡ true → SameButMessage c u text (next_id t c) t s'
  pub failure : is_ok r ≡ false → s' ≡ (if reaches_wait s c then t else s)

-- The channel, at the time of the send, has every message below its counter, and the counter is
-- not about to wrap around.
pub record HasRoom (c : Text) (t : AppState) : Type 0 where
  pub dense : (ch : Channel) → HashMap.get c t.channels ≡ some ch → IsDense c ch
  pub room :
      (ch : Channel) → HashMap.get c t.channels ≡ some ch → ch.next_message_id + 1 < usize_mod

-- Suppose that the tasks which run while `send_message` waits keep the state well-formed and lose
-- no channel and no user, and that the channel then has every message below its counter, which is
-- not about to wrap around. Then `send_message` returns, with the first error that applies in the
-- order of the source. A success stores the message at the end under the next number, raises the
-- counter by one, changes nothing else and returns the id of that number. An error changes
-- nothing.
pub send_message_lem :
    (s : AppState) (c u text : Text) (f : UserExistsFn)
    → Evolves s (f u s).1
    → HasRoom c (f u s).1
    → (o : AppState × StateResult Text) × (send_message s c u text f ≡ some o)
      × Sends c u text s (f u s).0 (f u s).1 o.0 o.1
unfolding send_message
send_message_lem s c u text f rely room = elim (Bool-cases (reaches_wait s c)) [
  | inr early ↦ (
    (s, if not (channel_name_is_valid c) then err invalid_channel_name else err unknown_channel),
    unfold channel_name_is_valid channel_exists in ground arith,
    record { result = ground arith; success = λ h. ground arith; failure = λ h. ground arith },
  )
  | inl waits ↦ elim (Bool-cases (f u s).0) [
    | inr unknown ↦ (
      ((f u s).1, err unknown_user),
      unfold channel_name_is_valid channel_exists in ground arith,
      record { result = ground arith; success = λ h. cc; failure = λ h. ground arith },
    )
    | inl known ↦
        let (ch, e) = channel-of_exists (f u s).1 c (rely.channels_stay c (ground arith)) in
        let (o, returns, result, success, failure) =
          send_known_lem c u text ch (f u s).1 e (room.room ch e) (room.dense ch e) in
        let number : next_id (f u s).1 c ≡ ch.next_message_id = unfold next_id in ground arith in
        (
          o,
          unfold channel_name_is_valid channel_exists in ground arith,
          record {
            result = ground arith;
            success = λ h. rw number (success h);
            failure = λ h. ground (arith, failure h);
          },
        )
  ]
]

-- If the other tasks that run during the wait keep the state well-formed and lose no channel and
-- no user, then so does the whole call.
pub send_message-Evolves :
    (s : AppState) (c u text : Text) (f : UserExistsFn) (o : AppState × StateResult Text)
    → Evolves s (f u s).1
    → HasRoom c (f u s).1
    → send_message s c u text f ≡ some o
    → Evolves s o.0
unfolding send_message
send_message-Evolves s c u text f o rely room h = elim (Bool-cases (reaches_wait s c)) [
  | inr early ↦
      subst (Evolves s) {x = s} (unfold channel_name_is_valid channel_exists in ground arith)
        (Evolves-refl s)
  | inl waits ↦ elim (Bool-cases (f u s).0) [
    | inr unknown ↦
        subst (Evolves s) {x = (f u s).1}
          (unfold channel_name_is_valid channel_exists in ground arith) rely
    | inl known ↦
        let (ch, e) = channel-of_exists (f u s).1 c (rely.channels_stay c (ground arith)) in
        Evolves-trans rely (
          send_known-Evolves c u text ch (f u s).1 e (ground arith) (room.room ch e)
            (room.dense ch e) o (unfold channel_name_is_valid channel_exists in ground arith))
  ]
]

-- On a well-formed server whose channel already holds a message under the number that its counter
-- shows, as a backup may that got a later message and not an earlier one, a send by a member
-- reports success and the message is dropped.
pub send_message_lost :
    (s : AppState) (c u text : Text) (f : UserExistsFn) (ch : Channel) (old : Message)
    → (f u s) ≡ (true, s)
    → HashMap.get c s.channels ≡ some ch
    → channel_name_is_valid c ≡ true
    → is_member s c u ≡ true
    → IsValidChannel c ch
    → ch.next_message_id < usize_mod
    → find ch.next_message_id ch.messages ≡ some old
    → (s' : AppState) × (send_message s c u text f ≡ some (s', ok (format_id c ch.next_message_id)))
      × (messages s' c ≡ messages s c)
unfolding send_message
send_message_lost s c u text f ch old answer e good member fits below taken =
    let m = message_from u text c ch.next_message_id in
    let (r, inserted, ins) =
      insert_message-Inserted c 0 usize_mod ch.messages m ch.next_message_id (omega arith) below
        (omega arith) (message_from-HasId u text c ch.next_message_id) fits.ids in
    let same : r.1 ≡ ch.messages =
      InRange-ext c 0 0 usize_mod usize_mod r.1 ch.messages (omega arith) (omega arith) ins.ordered
        fits.ids (λ j. ground (arith, ins.finds j)) in
    let has_user : HashSet.contains u ch.users ≡ true = unfold is_member in ground arith in
    let there : channel_exists s c ≡ true =
      unfold channel_exists HashMap.contains_key in ground arith in
    let ch' = record ch { messages = r.1; next_message_id = add_usize ch.next_message_id 1 } in
    (
      set_channel s c ch',
      unfold send_message_known channel_name_is_valid channel_exists in
          ground (arith, message_from-HasId u text c ch.next_message_id),
      unfold messages in ground (arith, HashMap.get-insert_self c ch' s.channels),
    )
