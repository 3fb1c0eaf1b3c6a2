-- ===== src/Discord/Replication.antt =====
-- `replicate_send_message`: what a backup makes of the messages of its primary.
use mathlib.Core.Path.{subst}
use cs.Base.{
  inl, inr, Option-cases, ℕ, ◌+◌, ◌<◌, ◌≡◌, refl, true, ◌&&◌, Option, none, some, List, [], ◌∷◌,
  arith, if◌then◌else◌, text_eq, length, nat_beq, All,
}
use cs.Base.HashMap
use cs.Base.Text.{Text}
use cs.Base.Decimal.{usize_mod}
use cs.Discord.Types.{StateResult, Message, Channel, new_channel, AppState, ok, Panics}
use cs.Discord.Messages.{format_id, message_from, insert_message}
use cs.Discord.Operations.{
  channel_name_is_valid, store, replicate_send_message, send_message_known, set_channel, add_usize,
  bool_to_usize,
}
use cs.Discord.Numbering.{HasId, numeric-of_HasId}
use cs.Discord.Order.{find, is_none}
use cs.Discord.Insertion.{insert_message-Inserted, InRange-ext}
use cs.Discord.Invariant.{
  IsValidChannel, new_channel-IsValid, IsDense, Evolves, set_channel-Evolves,
}
use cs.Discord.Members.{is_member, messages}
use cs.Discord.Members.{next_id}
use cs.Discord.Sending.{sent, send_known-sent, insert-sent}

-- What storing the message of number n leaves.
pub record Stored (c : Text) (n : ℕ) (m : Message) (ch ch' : Channel) : Type 0 where
  pub valid : IsValidChannel c ch'
  pub finds :
      (j : ℕ)
      → find j ch'.messages
        ≡ (if is_none (find n ch.messages) && nat_beq n j then some m else find j ch.messages)
  pub counter :
      ch'.next_message_id
      ≡ (if is_none (find n ch.messages) then ch.next_message_id + 1 else ch.next_message_id)
  pub users : ch'.users ≡ ch.users

module _ (c : Text) (n : ℕ) (m : Message) (ch : Channel) (below : n < usize_mod) (id : HasId c n m)
    (valid : IsValidChannel c ch) (room : ch.next_message_id + 1 < usize_mod) where
  pub store_lem : (ch' : Channel) × (store m ch ≡ some ch') × Stored c n m ch ch'
  store_lem =
      let (r, inserted, ins) =
        insert_message-Inserted c 0 usize_mod ch.messages m n (omega arith) below (omega arith) id
          valid.ids in
      let next = add_usize ch.next_message_id (bool_to_usize r.0) in
      let next_is : next ≡ (if r.0 then ch.next_message_id + 1 else ch.next_message_id) =
        ground arith in
      (
        record ch { messages = r.1; next_message_id = next },
        unfold store in ground arith,
        record {
          valid = record {
            users_once = valid.users_once;
            ids = ins.ordered;
            counted = ground (arith, next_is, ins.counts, valid.counted);
          };
          finds = ins.finds;
          counter = ground (arith, next_is, ins.reports);
          users = refl;
        },
      )

-- A sequence of replicated messages.
unfoldable pub store_all : List Message → Channel → Panics Channel
store_all [] ch = some ch
store_all (m ∷ ms) ch = elim (store m ch) [ none ↦ none | some ch' ↦ store_all ms ch' ]

-- Each message has an id of the channel.
abbrev pub HaveIds : Text → List Message → Type 0
HaveIds c = All (λ m. (n : ℕ) × (n < usize_mod) × HasId c n m)

abbrev pub or_else : Option Message → Option Message → Option Message
or_else none b = b
or_else (some a) b = some a

pub record StoredAll (c : Text) (ms : List Message) (ch ch' : Channel) : Type 0 where
  pub valid : IsValidChannel c ch'
  pub finds : (j : ℕ) → find j ch'.messages ≡ or_else (find j ch.messages) (find j ms)

module _ (c : Text) (n : ℕ) (m : Message) (ms : List Message) (ch next last : Channel)
    (below : n < usize_mod) (id : HasId c n m) (stored : store m ch ≡ some next)
    (first : Stored c n m ch next) (all : store_all ms next ≡ some last)
    (rest : StoredAll c ms next last) where
  StoredAll-cons : (store_all (m ∷ ms) ch ≡ some last) × StoredAll c (m ∷ ms) ch last
  unfolding store_all find
  StoredAll-cons = (
    ground arith,
    record {
      valid = rest.valid;
      finds = λ j. ground (arith, numeric-of_HasId c n m id below, first.finds j, rest.finds j);
    },
  )

-- A sequence of replicated messages, in any order and with repetitions, leaves the messages that
-- were there and under each other number the first message of the sequence with that number.
pub store_all_lem :
    (c : Text) (ms : List Message) (ch : Channel)
    → HaveIds c ms
    → IsValidChannel c ch
    → ch.next_message_id + length ms < usize_mod
    → (ch' : Channel) × (store_all ms ch ≡ some ch') × StoredAll c ms ch ch'
store_all_lem c [] ch ids valid room = (
  ch,
  unfold store_all in refl,
  record { valid = valid; finds = λ j. unfold find in ground arith },
)
store_all_lem c (m ∷ ms) ch ((n, below, id), ids) valid room =
    let (next, stored, first) = store_lem c n m ch below id valid (omega arith) in
    let bound : next.next_message_id + length ms < usize_mod = ground (arith, first.counter) in
    let (last, all, rest) = store_all_lem c ms next ids first.valid bound in
    let (returns, result) = StoredAll-cons c n m ms ch next last below id stored first all rest in
    (last, returns, result)

-- A backup that starts empty and is sent, fewer than 2^64 times, messages of a well-formed channel
-- of its primary, in any order and with repetitions (for each number the sequence has the
-- primary's message first, or nothing where the primary has nothing), ends with the primary's
-- messages in the primary's order and with the primary's counter.
pub store_all-primary :
    (c : Text) (p : Channel) (ms : List Message)
    → IsValidChannel c p
    → HaveIds c ms
    → length ms < usize_mod
    → ((j : ℕ) → find j ms ≡ find j p.messages)
    → (b : Channel) × (store_all ms new_channel ≡ some b)
      × (b.messages ≡ p.messages)
      × (b.next_message_id ≡ p.next_message_id)
store_all-primary c p ms valid ids room same =
    let (b, stored, all) =
      store_all_lem c ms new_channel ids (new_channel-IsValid c) (omega arith) in
    let messages : b.messages ≡ p.messages =
      InRange-ext c 0 0 usize_mod usize_mod b.messages p.messages (omega arith) (omega arith)
        all.valid.ids valid.ids (λ j. unfold find in ground (arith, all.finds j, same j)) in
    (b, stored, messages, ground (arith, messages, all.valid.counted, valid.counted))

-- Suppose that primary and backup hold the same messages and counter for a channel, which has
-- every message below the counter, and that the counter is not about to wrap around. Once the
-- primary has taken a member's message and the backup has replicated it with the id that the
-- primary returned, they hold the same messages and counter again, and both have reported that id.
pub replicate-send_message :
    (c u text : Text) (p b : AppState) (chp chb : Channel)
    → HashMap.get c p.channels ≡ some chp
    → HashMap.get c b.channels ≡ some chb
    → chb.messages ≡ chp.messages
    → chb.next_message_id ≡ chp.next_message_id
    → IsDense c chp
    → chp.next_message_id + 1 < usize_mod
    → is_member p c u ≡ true
    → (id : Text) × (p' : AppState) × (b' : AppState) × (send_message_known c u text p
        ≡ some (p', ok id))
      × (replicate_send_message b c u text id ≡ some (b', ok id))
      × (messages b' c ≡ messages p' c)
      × (next_id b' c ≡ next_id p' c)
replicate-send_message c u text p b chp chb ep eb same count dense room member =
    let id = format_id c chp.next_message_id in
    let chp' = sent c u text chp in
    let chb' = record chb { messages = chp'.messages; next_message_id = chp'.next_message_id } in
    let counter : add_usize chb.next_message_id 1 ≡ chp.next_message_id + 1 = omega arith in
    let inserted : insert_message (record { username = u; text = text; message_id = id })
          chb.messages
        ≡ some (true, chp'.messages) =
      rw same (unfold message_from in insert-sent c u text chp room dense) in
    let wrote = HashMap.get-insert_self {K = Text} c chp' p.channels in
    let copied = HashMap.get-insert_self {K = Text} c chb' b.channels in
    (
      id,
      set_channel p c chp',
      set_channel b c chb',
      send_known-sent c u text chp room dense p ep member,
      unfold replicate_send_message store message_from in ground arith,
      unfold messages in ground (arith, wrote, copied),
      unfold next_id in ground (arith, wrote, copied),
    )

-- Whatever replication returns, it keeps a server well-formed, for an id of the channel.
module _ (c u text : Text) (n : ℕ) (good : channel_name_is_valid c ≡ true)
    (below : n < usize_mod) where
  abbrev replicated : Message
  replicated = record { username = u; text = text; message_id = format_id c n }

  stored-IsValidChannel :
      (ch ch' : Channel)
      → ch.next_message_id + 1 < usize_mod
      → store replicated ch ≡ some ch'
      → IsValidChannel c ch
      → IsValidChannel c ch'
  stored-IsValidChannel ch ch' room e valid =
      let (ch'', stored, result) = store_lem c n replicated ch below refl valid room in
      let same : ch'' ≡ ch' = ground (arith, stored, e) in
      subst (IsValidChannel c) same result.valid

  pub replicate_send_message-Evolves :
      (s s' : AppState) (r : StateResult Text)
      → next_id s c + 1 < usize_mod
      → replicate_send_message s c u text (format_id c n) ≡ some (s', r)
      → Evolves s s'
  unfolding replicate_send_message
  replicate_send_message-Evolves s s' r room h = elim (Option-cases (HashMap.get c s.channels)) [
    | inl nothing ↦ absurd (ground arith)
    | inr (ch, e) ↦ elim (Option-cases (store replicated ch)) [
      | inl panics ↦ absurd (ground arith)
      | inr (ch', stored) ↦ subst (Evolves s) {x = set_channel s c ch'} (ground arith) (
          set_channel-Evolves s c ch' good (λ v.
            stored-IsValidChannel ch ch' (unfold next_id in ground arith) stored (v.each c ch e)))
    ]
  ]
