-- ===== src/Discord/Messages.antt =====
-- Message ids and the ordered set of messages (`Message`, `Channel::messages`).
use cs.Base.{
  ℕ, Bool, true, false, Option, none, some, List, [], ◌∷◌, ◌++◌, if◌then◌else◌, ltb, nat_beq,
}
use cs.Base.Text.{Text, split, last}
use cs.Base.Decimal.{decimal, parse_usize}
use cs.Discord.Types.{Message, Panics}

-- `format!("{}-{}", channel_name, message_id)`.
unfoldable pub format_id : Text → ℕ → Text
format_id channel_name n = channel_name ++ b'-' ∷ decimal n

-- `Message::from`.
unfoldable pub message_from : Text → Text → Text → ℕ → Message
message_from username text channel_name n = record {
  username = username;
  text = text;
  message_id = format_id channel_name n;
}

-- The last piece between dashes, parsed.
unfoldable pub parse_piece : Option Text → Panics ℕ
parse_piece none = none
parse_piece (some piece) = parse_usize piece

unfoldable pub get_numeric_message_id : Message → Panics ℕ
unfolding parse_piece
get_numeric_message_id m = parse_piece (last (split b'-' m.message_id))

-- `BTreeSet::insert`, by a scan from the smallest key: equal keys keep the old element. The order
-- of two messages is that of their numeric ids, and comparing panics where one has none.
abbrev insert_at :
    Panics ℕ
    → Panics ℕ
    → Message
    → Message
    → List Message
    → Panics (Bool × List Message)
    → Panics (Bool × List Message)
insert_at none b m x xs rest = none
insert_at (some a) none m x xs rest = none
insert_at (some a) (some b) m x xs rest =
    if ltb a b
    then some (true, m ∷ x ∷ xs)
    else if nat_beq a b
    then some (false, x ∷ xs)
    else elim rest [ none ↦ none | some (did, ys) ↦ some (did, x ∷ ys) ]

unfoldable pub insert_message : Message → List Message → Panics (Bool × List Message)
insert_message m [] = some (true, m ∷ [])
insert_message m (x ∷ xs) =
    insert_at (get_numeric_message_id m) (get_numeric_message_id x) m x xs (insert_message m xs)
