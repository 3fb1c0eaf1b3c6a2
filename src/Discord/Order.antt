-- ===== src/Discord/Order.antt =====
-- The messages of a channel as a finite map from numbers to messages: lists of
-- ascending numbers, and what is found under a number.
use cs.Base.{
  ℕ, suc, ◌+◌, ◌≤◌, ◌<◌, ◌≡◌, refl, Bool, true, false, Option, none, some, List, [], ◌∷◌, ◌++◌,
  arith, if◌then◌else◌, nat_beq, length,
}
use cs.Base.Text.{Text}
use cs.Base.Decimal.{usize_mod}
use cs.Discord.Types.{Message}
use cs.Discord.Messages.{get_numeric_message_id, insert_message}
use cs.Discord.Numbering.{HasId, numeric-of_HasId}

-- Ids of the channel whose numbers ascend strictly from lo and stay below hi.
abbrev pub InRange : Text → ℕ → ℕ → List Message → Type 0
InRange c lo hi [] = Unit
InRange c lo hi (m ∷ ms) = (n : ℕ) × HasId c n m × (lo ≤ n) × (n < hi) × InRange c (suc n) hi ms

abbrev find_at : Option ℕ → ℕ → Message → Option Message → Option Message
find_at none n m rest = rest
find_at (some k) n m rest = if nat_beq k n then some m else rest

-- The message with number n.
unfoldable pub find : ℕ → List Message → Option Message
find n [] = none
find n (m ∷ ms) = find_at (get_numeric_message_id m) n m (find n ms)

pub find-nil : (n : ℕ) → find n [] ≡ none
unfolding find
find-nil n = refl

abbrev pub is_none {ℓ} : {A : Type ℓ} → Option A → Bool
is_none none = true
is_none (some a) = false

module _ (c : Text) where
  pub InRange-weaken :
      (lo lo' hi hi' : ℕ) (ms : List Message)
      → lo' ≤ lo
      → hi ≤ hi'
      → InRange c lo hi ms
      → InRange c lo' hi' ms
  InRange-weaken lo lo' hi hi' [] p q h = tt
  InRange-weaken lo lo' hi hi' (m ∷ ms) p q (n, id, above, below, rest) = (
    n,
    id,
    omega arith,
    omega arith,
    InRange-weaken (suc n) (suc n) hi hi' ms (omega arith) q rest,
  )

  pub InRange-snoc :
      (lo hi : ℕ) (ms : List Message) (m : Message) (n : ℕ)
      → lo ≤ n
      → hi ≤ n
      → HasId c n m
      → InRange c lo hi ms
      → InRange c lo (suc n) (ms ++ m ∷ [])
  InRange-snoc lo hi [] m n p q id h = (n, id, p, omega arith, tt)
  InRange-snoc lo hi (x ∷ xs) m n p q id (k, xid, above, below, rest) =
      (k, xid, above, omega arith, InRange-snoc (suc k) hi xs m n (omega arith) q id rest)

  pub length-of_InRange :
      (lo hi : ℕ) (ms : List Message) → lo ≤ hi → InRange c lo hi ms → lo + length ms ≤ hi
  length-of_InRange lo hi [] p h = omega arith
  length-of_InRange lo hi (m ∷ ms) p (n, id, above, below, rest) =
      omega (arith, length-of_InRange (suc n) hi ms (omega arith) rest)

  -- A message beyond all others goes to the end.
  pub insert_message-last :
      (lo hi : ℕ) (ms : List Message) (m : Message) (n : ℕ)
      → hi ≤ n
      → n < usize_mod
      → HasId c n m
      → InRange c lo hi ms
      → insert_message m ms ≡ some (true, ms ++ m ∷ [])
  unfolding insert_message
  insert_message-last lo hi [] m n p b id h = refl
  insert_message-last lo hi (x ∷ xs) m n p b id (k, xid, above, below, rest) = ground (
    arith,
    numeric-of_HasId c n m id b,
    numeric-of_HasId c k x xid (omega arith),
    insert_message-last (suc k) hi xs m n p b id rest,
  )

  -- Nothing below the range is found.
  pub find-below :
      (j lo hi : ℕ) (ms : List Message)
      → j < lo
      → hi ≤ usize_mod
      → InRange c lo hi ms
      → find j ms ≡ none
  unfolding find
  find-below j lo hi [] p b h = refl
  find-below j lo hi (x ∷ xs) p b (k, xid, above, below, rest) = ground (
    arith,
    numeric-of_HasId c k x xid (omega arith),
    find-below j (suc k) hi xs (omega arith) b rest,
  )
