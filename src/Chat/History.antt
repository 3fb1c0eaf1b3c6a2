-- ===== src/Chat/History.antt =====
-- `send_message` and `get_messages`, and the numbers of the messages.
use cs.Base.{
  unwrap_or, ℕ, suc, ◌+◌, ◌<◌, ◌≤◌, ◌%◌, ◌≡◌, refl, true, false, not, Option, some, List, [], ◌∷◌,
  ◌++◌, reverse, arith, if◌then◌else◌, ◌==◌, text_eq, text_beq_iff, inl, inr, Option-cases,
  Bool-cases, take, drop,
}
use cs.Base.HashSet
use cs.Base.HashMap
use cs.Base.Text.{Text}
use cs.Base.Decimal.{usize_mod}
use cs.Chat.Types.{Message, Channel, AppState, StateResult, ok, err}
use cs.Chat.Operations.{
  user_exists, channel_name_is_valid, channel_exists, send_known, send_message, get_messages,
  invalid_channel_name, unknown_channel, unknown_user, no_such_member, set_channel,
}
use cs.Chat.Index.{is_indexed, channels_of, IsIndexed, members, messages, is_member}
use cs.Chat.Changes.{is_ok}

-- The numbers of a list of messages ascend strictly and are below n.
abbrev pub Ascends : ℕ → ℕ → List Message → Type 0
Ascends low n [] = Unit
Ascends low n (m ∷ ms) = (low ≤ m.message_id) × (m.message_id < n) × Ascends (suc m.message_id) n ms

-- In each channel the ids ascend strictly and are below the server's counter.
abbrev pub IsNumbered : AppState → Type 0
IsNumbered s = (c : Text) → Ascends 0 s.next_message_id (messages s c)

pub Ascends-later : (low n k : ℕ) (ms : List Message) → n ≤ k → Ascends low n ms → Ascends low k ms
Ascends-later low n k [] le h = tt
Ascends-later low n k (m ∷ ms) le h =
    (h.0, omega (arith, h.1), Ascends-later (suc m.message_id) n k ms le h.2)

pub Ascends-snoc :
    (low : ℕ) (ms : List Message) (m : Message)
    → low ≤ m.message_id
    → Ascends low m.message_id ms
    → Ascends low (suc m.message_id) (ms ++ m ∷ [])
Ascends-snoc low [] m le h = (le, omega arith, tt)
Ascends-snoc low (x ∷ ms) m le h =
    (h.0, omega (arith, h.1), Ascends-snoc (suc x.message_id) ms m (omega (arith, h.1)) h.2)

-- A message is appended to one channel under the next number, and nothing else changes.
pub record Sent (c : Text) (m : Message) (s s' : AppState) : Type 0 where
  pub number : m.message_id ≡ s.next_message_id
  pub counter : s'.next_message_id ≡ (s.next_message_id + 1) % usize_mod
  pub appended :
      (d : Text) → messages s' d ≡ (if c == d then messages s d ++ m ∷ [] else messages s d)
  pub members : (d v : Text) → is_member s' d v ≡ is_member s d v
  pub users : s'.users ≡ s.users
  pub user_channels : s'.user_channels ≡ s.user_channels
  pub channels : (d : Text) → channel_exists s' d ≡ channel_exists s d

Sent-is_indexed :
    {c : Text} {m : Message} {s s' : AppState}
    → Sent c m s s'
    → (v d : Text) → is_indexed s' v d ≡ is_indexed s v d
unfolding is_indexed channels_of
Sent-is_indexed t v d = rw t.user_channels refl

-- A send keeps the agreement of the two views.
pub Sent-IsIndexed :
    {c : Text} {m : Message} {s s' : AppState} → Sent c m s s' → IsIndexed s → IsIndexed s'
Sent-IsIndexed {c} {m} {s} {s'} t h = record {
  agree = λ v d. ground (arith, t.members d v, Sent-is_indexed t v d, h.agree v d);
  entries =
      λ v. unfold user_exists in rw (t.user_channels, t.users) (unfold user_exists in h.entries v);
  once = λ v. unfold channels_of in rw t.user_channels (unfold channels_of in h.once v);
  named = λ d e. h.named d (ground (arith, t.channels d));
}

abbrev pub message_at : AppState → Text → Text → Message
message_at s u text = record { username = u; text = text; message_id = s.next_message_id }

module _ (s : AppState) (c u text : Text) where
  abbrev after_send : Channel → AppState
  after_send ch =
      set_channel (record s { next_message_id = (s.next_message_id + 1) % usize_mod }) c
        (record ch { messages = ch.messages ++ message_at s u text ∷ [] })

  after_send-Sent :
      (ch : Channel)
      → HashMap.get c s.channels ≡ some ch
      → Sent c (message_at s u text) s (after_send ch)
  unfolding messages is_member members channel_exists HashMap.contains_key
  after_send-Sent ch e =
      let ch' = record ch { messages = ch.messages ++ message_at s u text ∷ [] } in
      record {
        number = refl;
        counter = refl;
        appended = λ d. ground (arith, HashMap.get-insert c d ch' s.channels, text_beq_iff c d);
        members = λ d v. ground (arith, HashMap.get-insert c d ch' s.channels, text_beq_iff c d);
        users = refl;
        user_channels = refl;
        channels = λ d. ground (arith, HashMap.get-insert c d ch' s.channels, text_beq_iff c d);
      }

  send_known_lem :
      is_member s c u ≡ true
      → (s' : AppState) × (send_known s c u text ≡ some (s', ok s.next_message_id))
        × Sent c (message_at s u text) s s'
  unfolding send_known is_member members
  send_known_lem old = elim (Option-cases (HashMap.get c s.channels)) [
    | inl absent ↦ absurd (unfold HashSet.contains in ground arith)
    | inr (ch, e) ↦ (after_send ch, ground arith, after_send-Sent ch e)
  ]

  send_known_new :
      channel_exists s c ≡ true
      → is_member s c u ≡ false
      → send_known s c u text ≡ some (s, err no_such_member)
  unfolding send_known is_member members channel_exists HashMap.contains_key
  send_known_new there new = ground arith

-- A call of `send_message` on s.
pub record Sends (c u text : Text) (s s' : AppState) (r : StateResult ℕ) : Type 0 where
  pub result : r ≡ (
      if not (channel_name_is_valid c)
      then err invalid_channel_name
      else if not (channel_exists s c)
      then err unknown_channel
      else if not (user_exists s u)
      then err unknown_user
      else if not (is_member s c u)
      then err no_such_member
      else ok s.next_message_id)
  pub success : is_ok r ≡ true → Sent c (message_at s u text) s s'
  pub failure : is_ok r ≡ false → s' ≡ s

-- `send_message` never panics, answers the first error that applies, in the order of the source,
-- and then changes nothing; on success it answers the server's counter, appends the message under
-- that number to that channel alone, and counts.
pub send_message_numbered :
    (s : AppState) (c u text : Text)
    → (o : AppState × StateResult ℕ) × (send_message s c u text ≡ some o) × Sends c u text s o.0 o.1
unfolding send_message
send_message_numbered s c u text = elim (Bool-cases (channel_name_is_valid c)) [
  | inr bad ↦ (
    (s, err invalid_channel_name),
    ground arith,
    record { result = ground arith; success = λ h. cc; failure = λ h. refl },
  )
  | inl good ↦ elim (Bool-cases (channel_exists s c)) [
    | inr absent ↦ (
      (s, err unknown_channel),
      ground arith,
      record { result = ground arith; success = λ h. cc; failure = λ h. refl },
    )
    | inl present ↦ elim (Bool-cases (user_exists s u)) [
      | inr unknown ↦ (
        (s, err unknown_user),
        ground arith,
        record { result = ground arith; success = λ h. cc; failure = λ h. refl },
      )
      | inl known ↦ elim (Bool-cases (is_member s c u)) [
        | inr new ↦ (
          (s, err no_such_member),
          ground (arith, send_known_new s c u text present new),
          record { result = ground arith; success = λ h. cc; failure = λ h. refl },
        )
        | inl old ↦
            let (s', e, sent) = send_known_lem s c u text old in
            (
              (s', ok s.next_message_id),
              ground (arith, e),
              record { result = ground arith; success = λ h. sent; failure = λ h. cc },
            )
      ]
    ]
  ]
]

abbrev page : List Message → ℕ → ℕ → List Message
page ms limit offset = take limit (drop offset (reverse ms))

-- `get_messages` never panics, answers the first error that applies, and otherwise a page of the
-- channel's messages, newest first, of 20 from the newest by default.
pub get_messages_lem :
    (s : AppState) (c : Text) (limit offset : Option ℕ)
    → get_messages s c limit offset
      ≡ some (
          if not (channel_name_is_valid c)
          then err invalid_channel_name
          else if not (channel_exists s c)
          then err unknown_channel
          else ok (page (messages s c) (unwrap_or limit 20) (unwrap_or offset 0)))
unfolding get_messages messages channel_exists HashMap.contains_key
get_messages_lem s c limit offset = ground arith
