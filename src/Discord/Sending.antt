-- ===== src/Discord/Sending.antt =====
-- The store of a message, behind the checks of `send_message`.
use mathlib.Core.Path.{subst}
use cs.Base.{
  ℕ, suc, ◌+◌, ◌<◌, ◌≡◌, refl, true, false, not, some, [], ◌∷◌, ◌++◌, inl, inr, arith,
  if◌then◌else◌, Bool-cases, ◌==◌, text_eq, text_beq_iff, length-append,
}
use cs.Base.HashSet
use cs.Base.HashMap
use cs.Base.Text.{Text}
use cs.Base.Decimal.{usize_mod}
use cs.Discord.Types.{Channel, AppState, StateResult, ok, err}
use cs.Discord.Messages.{format_id, message_from, insert_message}
use cs.Discord.Operations.{
  not_authorized, channel_name_is_valid, channel_exists, send_message_known, set_channel, add_usize,
}
use cs.Discord.Numbering.{message_from-HasId}
use cs.Discord.Order.{InRange-weaken, InRange-snoc, insert_message-last}
use cs.Discord.Invariant.{IsValidChannel, IsDense, Evolves, Evolves-refl, set_channel-Evolves}
use cs.Discord.Users.{is_ok}
use cs.Discord.Members.{is_member, messages, next_id}

-- The channel after a message was sent to it.
abbrev pub sent : Text → Text → Text → Channel → Channel
sent c u text ch = record ch {
  messages = ch.messages ++ message_from u text c ch.next_message_id ∷ [];
  next_message_id = ch.next_message_id + 1;
}

module _ (c u text : Text) (ch : Channel) (room : ch.next_message_id + 1 < usize_mod)
    (dense : IsDense c ch) where
  pub insert-sent :
      insert_message (message_from u text c ch.next_message_id) ch.messages
      ≡ some (true, (sent c u text ch).messages)
  insert-sent =
      insert_message-last c 0 ch.next_message_id ch.messages _ ch.next_message_id (omega arith)
        (omega arith) (message_from-HasId u text c ch.next_message_id) dense

  pub sent-IsDense : IsDense c (sent c u text ch)
  sent-IsDense =
      InRange-weaken c 0 0 (suc ch.next_message_id) (ch.next_message_id + 1) _ (omega arith)
        (omega arith)
        (InRange-snoc c 0 ch.next_message_id ch.messages _ ch.next_message_id (omega arith)
          (omega arith) (message_from-HasId u text c ch.next_message_id) dense)

  pub sent-IsValidChannel : IsValidChannel c ch → IsValidChannel c (sent c u text ch)
  sent-IsValidChannel h = record {
    users_once = h.users_once;
    ids =
        InRange-weaken c 0 0 (ch.next_message_id + 1) usize_mod _ (omega arith) (omega arith)
          sent-IsDense;
    counted = omega (
      arith,
      h.counted,
      length-append ch.messages (message_from u text c ch.next_message_id ∷ []),
    );
  }

  pub send_known-sent :
      (t : AppState)
      → HashMap.get c t.channels ≡ some ch
      → is_member t c u ≡ true
      → send_message_known c u text t
        ≡ some (set_channel t c (sent c u text ch), ok (format_id c ch.next_message_id))
  unfolding send_message_known
  send_known-sent t e member =
      let has_user : HashSet.contains u ch.users ≡ true = unfold is_member in ground arith in
      let counter : add_usize ch.next_message_id 1 ≡ ch.next_message_id + 1 = omega arith in
      ground (arith, insert-sent, message_from-HasId u text c ch.next_message_id)

  pub send_known-stranger :
      (t : AppState)
      → HashMap.get c t.channels ≡ some ch
      → is_member t c u ≡ false
      → send_message_known c u text t ≡ some (t, err not_authorized)
  unfolding send_message_known
  send_known-stranger t e stranger =
      let no_user : HashSet.contains u ch.users ≡ false = unfold is_member in ground arith in
      ground arith

-- The server changed in one respect: one channel has one more message, at the end, with the next
-- number, and its counter is one more. Members, users, the other channels' messages and counters, and
-- which channels there are, are as before.
pub record SameButMessage (c u text : Text) (n : ℕ) (t s' : AppState) : Type 0 where
  pub sent_messages :
      (d : Text)
      → messages s' d
        ≡ (if c == d then messages t d ++ message_from u text c n ∷ [] else messages t d)
  pub same_members : (d v : Text) → is_member s' d v ≡ is_member t d v
  pub same_users : s'.users ≡ t.users
  pub counters : (d : Text) → next_id s' d ≡ (if c == d then n + 1 else next_id t d)
  pub same_channels : (d : Text) → channel_exists s' d ≡ channel_exists t d

module _ (c u text : Text) (ch : Channel) (t : AppState)
    (e : HashMap.get c t.channels ≡ some ch) where
  sent-SameButMessage :
      SameButMessage c u text ch.next_message_id t (set_channel t c (sent c u text ch))
  sent-SameButMessage = record {
    sent_messages = λ d.
        unfold messages in
        ground (arith, HashMap.get-insert c d (sent c u text ch) t.channels, text_beq_iff c d);
    same_members = λ d v.
        unfold is_member in
        ground (arith, HashMap.get-insert c d (sent c u text ch) t.channels, text_beq_iff c d);
    same_users = refl;
    counters = λ d.
        unfold next_id in
        ground (arith, HashMap.get-insert c d (sent c u text ch) t.channels, text_beq_iff c d);
    same_channels = λ d.
        unfold channel_exists HashMap.contains_key in
        ground (arith, HashMap.get-insert c d (sent c u text ch) t.channels, text_beq_iff c d);
  }

  -- Behind its checks, `send_message` stores the message for a member, or refuses and changes
  -- nothing.
  pub send_known_lem :
      ch.next_message_id + 1 < usize_mod
      → IsDense c ch
      → (o : AppState × StateResult Text) × (send_message_known c u text t ≡ some o)
        × (o.1 ≡ (
            if not (is_member t c u)
            then err not_authorized
            else ok (format_id c ch.next_message_id)))
        × (is_ok o.1 ≡ true → SameButMessage c u text ch.next_message_id t o.0)
        × (is_ok o.1 ≡ false → o.0 ≡ t)
  send_known_lem room dense = elim (Bool-cases (is_member t c u)) [
    | inl member ↦ (
      (set_channel t c (sent c u text ch), ok (format_id c ch.next_message_id)),
      send_known-sent c u text ch room dense t e member,
      ground arith,
      λ h. sent-SameButMessage,
      λ h. cc,
    )
    | inr stranger ↦ (
      (t, err not_authorized),
      send_known-stranger c u text ch room dense t e stranger,
      ground arith,
      λ h. cc,
      λ h. refl,
    )
  ]

  pub send_known-Evolves :
      channel_name_is_valid c ≡ true
      → ch.next_message_id + 1 < usize_mod
      → IsDense c ch
      → (o : AppState × StateResult Text) → send_message_known c u text t ≡ some o
      → Evolves t o.0
  send_known-Evolves good room dense o h = elim (Bool-cases (is_member t c u)) [
    | inl member ↦
        subst (Evolves t) {x = set_channel t c (sent c u text ch)}
          (cc (h, send_known-sent c u text ch room dense t e member))
          (set_channel-Evolves t c (sent c u text ch) good
            (λ v. sent-IsValidChannel c u text ch room dense (v.each c ch e)))
    | inr stranger ↦
        subst (Evolves t) {x = t} (cc (h, send_known-stranger c u text ch room dense t e stranger))
          (Evolves-refl t)
  ]
