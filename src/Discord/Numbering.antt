-- ===== src/Discord/Numbering.antt =====
-- The numeric part of a message id (`Message::get_numeric_message_id`).
use cs.Base.{ℕ, ◌<◌, ◌≡◌, refl, ap, ◌∙◌, some}
use cs.Base.Text.{Text, split, last, last-split-append}
use cs.Base.Decimal.{decimal, usize_mod, decimal-IsDigit, All-ne_dash, parse_usize-decimal}
use cs.Discord.Types.{Message}
use cs.Discord.Messages.{format_id, message_from, parse_piece, get_numeric_message_id}

-- The message has the id of number n in its channel.
abbrev pub HasId : Text → ℕ → Message → Type 0
HasId channel n m = m.message_id ≡ format_id channel n

-- The number of an id is read back from it, also where the channel's name holds dashes.
pub numeric-of_HasId :
    (channel : Text) (n : ℕ) (m : Message)
    → HasId channel n m
    → n < usize_mod
    → get_numeric_message_id m ≡ some n
unfolding get_numeric_message_id format_id
numeric-of_HasId channel n m h b =
    ap (λ t. parse_piece (last (split b'-' t))) h
    ∙ ap parse_piece
        (last-split-append b'-' channel (decimal n) (All-ne_dash (decimal n) (decimal-IsDigit n)))
    ∙ parse_usize-decimal n b

-- `Message::from` gives a message whose number is the one it was made from, for every usize.
pub numeric-message_from :
    (username text channel : Text) (n : ℕ)
    → n < usize_mod
    → get_numeric_message_id (message_from username text channel n) ≡ some n
unfolding message_from
numeric-message_from username text channel n b = numeric-of_HasId channel n _ refl b

pub message_from-HasId :
    (username text channel : Text) (n : ℕ) → HasId channel n (message_from username text channel n)
unfolding message_from
message_from-HasId username text channel n = refl
