-- ===== src/Discord/Reading.antt =====
-- `get_messages`, `list_channel_users` and the other reads.
use mathlib.Core.List.{reverse-append}
use cs.Base.{
  unwrap_or, ℕ, beq_refl, suc, ◌+◌, ◌≤◌, ◌≡◌, sym, ap, ◌∙◌, true, not, ◌&&◌, Option, none, some,
  List, [], ◌∷◌, ◌++◌, reverse, arith, if◌then◌else◌, text_eq, length, take, drop,
  take-append-take-drop, drop-drop, length-take-le,
}
use cs.Base.HashMap
use cs.Base.Text.{Text}
use cs.Discord.Types.{Message, AppState, ok, err, UserExistsFn}
use cs.Discord.Messages.{format_id, message_from}
use cs.Discord.Operations.{
  invalid_channel_name, unknown_channel, channel_name_is_valid, channel_exists, get_messages,
  list_channel_users, send_message,
}
use cs.Discord.Invariant.{Evolves}
use cs.Discord.Members.{members, messages}
use cs.Discord.Members.{next_id}
use cs.Discord.Sends.{HasRoom, send_message_lem, send_message-Evolves}

-- The messages, newest first, from `offset` on, `limit` at most.
abbrev pub page : List Message → ℕ → ℕ → List Message
page ms limit offset = take limit (drop offset (reverse ms))

-- `get_messages` never panics, answers the first error that applies, and otherwise a page of the
-- channel's messages, newest first, of 20 from the newest by default.
pub get_messages_lem :
    (s : AppState) (c : Text) (limit offset : Option ℕ)
    → get_messages s c limit offset
      ≡ some (
          if not (channel_name_is_valid c)
          then err invalid_channel_name
          else if not (channel_exists s c)
          then err unknown_channel
          else ok (page (messages s c) (unwrap_or limit 20) (unwrap_or offset 0)))
unfolding get_messages messages channel_exists HashMap.contains_key
get_messages_lem s c limit offset = ground arith

-- `list_channel_users` never panics, answers the first error that applies, and otherwise the
-- channel's members.
pub list_channel_users_lem :
    (s : AppState) (c : Text)
    → list_channel_users s c
      ≡ some (
          if not (channel_name_is_valid c)
          then err invalid_channel_name
          else if not (channel_exists s c)
          then err unknown_channel
          else ok (members s c))
unfolding list_channel_users members channel_exists HashMap.contains_key
list_channel_users_lem s c = ground arith

page-append :
    (ms : List Message) (m n offset : ℕ)
    → page ms m offset ++ page ms n (offset + m) ≡ page ms (m + n) offset
page-append ms m n offset =
    ap (λ l. page ms m offset ++ take n l) (sym (drop-drop offset m (reverse ms)))
    ∙ take-append-take-drop m n (drop offset (reverse ms))

-- If two consecutive pages are answered, then the page of both sizes is the two put together, and
-- the first is no longer than its limit.
pub get_messages_pages :
    (s : AppState) (c : Text) (m n offset : ℕ) {p q : List Message}
    → get_messages s c (some m) (some offset) ≡ some (ok p)
    → get_messages s c (some n) (some (offset + m)) ≡ some (ok q)
    → (get_messages s c (some (m + n)) (some offset) ≡ some (ok (p ++ q))) × (length p ≤ m)
get_messages_pages s c m n offset {p} {q} hp hq =
    let first = sym (get_messages_lem s c (some m) (some offset)) ∙ hp in
    let second = sym (get_messages_lem s c (some n) (some (offset + m))) ∙ hq in
    let whole = get_messages_lem s c (some (m + n)) (some offset) in
    let together = page-append (messages s c) m n offset in
    (
      ground (arith, first, second, whole, together),
      ground (arith, first, length-take-le m (drop offset (reverse (messages s c)))),
    )

-- After a successful send the newest message that `get_messages` shows is the one that was sent,
-- under the id that was returned, and behind it stand the older ones as before. (The tasks that
-- run during the wait keep the state well-formed and lose no channel and no user, and the channel
-- then has every message below its counter, which is not about to wrap around.)
pub get_messages-send_message :
    (s : AppState) (c u text : Text) (f : UserExistsFn) (k : ℕ) (s' : AppState) (id : Text)
    → Evolves s (f u s).1
    → HasRoom c (f u s).1
    → send_message s c u text f ≡ some (s', ok id)
    → get_messages s' c (some (suc k)) none
      ≡ some (
          ok (
            record { username = u; text = text; message_id = id }
            ∷ take k (reverse (messages (f u s).1 c))))
get_messages-send_message s c u text f k s' id rely room h =
    let t = (f u s).1 in
    let m : Message = record { username = u; text = text; message_id = id } in
    let (o, returns, sends) = send_message_lem s c u text f rely room in
    let state : o.0 ≡ s' = ground (arith, returns, h) in
    let reply : o.1 ≡ ok id = ground (arith, returns, h) in
    let stays = send_message-Evolves s c u text f o rely room returns in
    let good : channel_name_is_valid c && channel_exists s c ≡ true =
      ground (arith, sends.result, reply) in
    let number : id ≡ format_id c (next_id t c) = ground (arith, sends.result, reply) in
    let there : channel_exists s' c ≡ true =
      rw (← state) (stays.channels_stay c (ground (arith, good))) in
    let log : messages s' c ≡ messages t c ++ message_from u text c (next_id t c) ∷ [] =
      rw (← state)
        (ground (arith, (sends.success (rw reply)).sent_messages c, beq_refl {A = Text} c)) in
    let last_one : message_from u text c (next_id t c) ≡ m = unfold message_from in rw number in
    get_messages_lem s' c (some (suc k)) none
    ∙ ground (
      arith,
      good,
      there,
      log,
      last_one,
      reverse-append (messages t c) (message_from u text c (next_id t c) ∷ []),
    )
