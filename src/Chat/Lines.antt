-- ===== src/Chat/Lines.antt =====
-- The choice of the command, and the end of a connection.
use mathlib.Core.Path.{subst}
use cs.Base.{
  ℕ, ◌≡◌, ◌≢◌, refl, ◌⊎◌, Bool, true, false, not, ◌&&◌, ◌||◌, Option, none, some, [], ◌∷◌, arith,
  if◌then◌else◌, text_eq, inl, inr, Option-cases, Bool-cases,
}
use cs.Base.Text.{Text, lit, starts_with, trim, has_char, split_once-no_char}
use cs.Chat.Types.{AppState}
use cs.Chat.Departure.{Leaves, leave_all_channels_lem}
use cs.Chat.Commands.{
  Connection, Handled, SocketOperation, send, sending, process_line, handle_unexpected_close,
  unwrap,
}
use cs.Chat.Connections.{
  IsConnection, Answers, register_lem, login_lem, logout_lem, join_lem, leave_lem,
  list_channels_lem, list_users_lem, send_lem, history_lem,
}

-- A SEND or HISTORY without any space behind it.
abbrev pub lacks_argument : Text → Bool
lacks_argument line =
    (starts_with (lit "SEND") line || starts_with (lit "HISTORY") line) && not (has_char b' ' line)

-- The line is handled, and the connection is well-formed afterwards.
abbrev pub Serves : Option (Connection × SocketOperation) → Type 0
Serves h = (o : Connection × SocketOperation) × (h ≡ some o) × IsConnection o.0

sending_lem : (h : Handled) → Answers h → Serves (sending h)
sending_lem none (o, e, i) = cc
sending_lem (some (k, r)) ((k', r'), e, i) = ((k', send r'), ground arith, i)

if_Serves :
    {x y : Option (Connection × SocketOperation)} (b : Bool)
    → (b ≡ true → Serves x)
    → (b ≡ false → Serves y)
    → Serves (if b then x else y)
if_Serves true taken otherwise = taken refl
if_Serves false taken otherwise = otherwise refl

module _ (k : Connection) (h : IsConnection k) (received : Text) where
  abbrev line : Text
  line = trim received

  served : lacks_argument line ≡ false → Serves (process_line k received)
  unfolding process_line
  served enough =
      if_Serves (starts_with (lit "REGISTER") line) (λ p. sending_lem _ (register_lem k h line))
        λ _.
          if_Serves (starts_with (lit "LOGIN") line) (λ p. sending_lem _ (login_lem k h line))
            λ _.
              if_Serves (starts_with (lit "LOGOUT") line) (λ p. sending_lem _ (logout_lem k h line))
                λ _.
                  if_Serves (starts_with (lit "JOIN") line) (λ p. sending_lem _ (join_lem k h line))
                    λ _.
                      if_Serves (starts_with (lit "LEAVE") line)
                        (λ p. sending_lem _ (leave_lem k h line))
                        λ _.
                          if_Serves (starts_with (lit "LIST CHANNELS") line)
                            (λ p. sending_lem _ (list_channels_lem k h line))
                            λ _.
                              if_Serves (starts_with (lit "LIST USERS") line)
                                (λ p. sending_lem _ (list_users_lem k h line))
                                λ _.
                                  if_Serves (starts_with (lit "SEND") line)
                                    (λ p. sending_lem _ (send_lem k h line (ground arith)))
                                    λ _.
                                      if_Serves (starts_with (lit "HISTORY") line)
                                        (λ p. sending_lem _ (history_lem k h line (ground arith)))
                                        λ _.
                                          if_Serves (starts_with (lit "QUIT") line)
                                            (λ p. (_, refl, h)) λ _. (_, refl, h)

-- The first letter of a prefix.
first_letter : (c : ℕ) (p s : Text) → starts_with (c ∷ p) s ≡ true → starts_with (c ∷ []) s ≡ true
unfolding starts_with
first_letter c p [] h = h
first_letter c p (d ∷ s) h = ground arith

other_letter :
    (c d : ℕ) (p s : Text) → c ≢ d → starts_with (c ∷ []) s ≡ true → starts_with (d ∷ p) s ≡ false
unfolding starts_with
other_letter c d p [] differ h = refl
other_letter c d p (x ∷ s) differ h = ground arith

-- No earlier command is taken.
abbrev SkipsTo : Text → Type 0
SkipsTo s =
    (starts_with (lit "REGISTER") s ≡ false)
    × (starts_with (lit "LOGIN") s ≡ false)
    × (starts_with (lit "LOGOUT") s ≡ false)
    × (starts_with (lit "JOIN") s ≡ false)
    × (starts_with (lit "LEAVE") s ≡ false)
    × (starts_with (lit "LIST CHANNELS") s ≡ false)
    × (starts_with (lit "LIST USERS") s ≡ false)

skips :
    (c : ℕ) (s : Text) → c ≢ b'R' → c ≢ b'L' → c ≢ b'J' → starts_with (c ∷ []) s ≡ true → SkipsTo s
unfolding lit
skips c s r l j h = (
  other_letter c b'R' (lit "EGISTER") s r h,
  other_letter c b'L' (lit "OGIN") s l h,
  other_letter c b'L' (lit "OGOUT") s l h,
  other_letter c b'J' (lit "OIN") s j h,
  other_letter c b'L' (lit "EAVE") s l h,
  other_letter c b'L' (lit "IST CHANNELS") s l h,
  other_letter c b'L' (lit "IST USERS") s l h,
)

skips_send : (s : Text) → starts_with (lit "SEND") s ≡ true → SkipsTo s
unfolding lit
skips_send s h =
    skips b'S' s (omega arith) (omega arith) (omega arith) (first_letter b'S' (lit "END") s h)

skips_history :
    (s : Text)
    → starts_with (lit "HISTORY") s ≡ true
    → SkipsTo s × (starts_with (lit "SEND") s ≡ false)
unfolding lit
skips_history s h =
    let first = first_letter b'H' (lit "ISTORY") s h in
    (
      skips b'H' s (omega arith) (omega arith) (omega arith) first,
      other_letter b'H' b'S' (lit "END") s (omega arith) first,
    )

panics :
    (k : Connection) (received : Text)
    → lacks_argument (trim received) ≡ true
    → process_line k received ≡ none
unfolding process_line unwrap
panics k received lacking =
    let line = trim received in
    let unsplit = split_once-no_char b' ' line (ground arith) in
    elim (Bool-cases (starts_with (lit "SEND") line)) [
      | inl is_send ↦ ground (arith, skips_send line is_send, unsplit)
      | inr other ↦
          let is_history : starts_with (lit "HISTORY") line ≡ true = ground arith in
          ground (arith, skips_history line is_history, unsplit)
    ]

-- On a connection whose shared state is well-formed and whose user exists, a line that begins with
-- SEND or HISTORY and has no space once it is trimmed panics; every other line is handled, and the
-- shared state is then well-formed and the connection's user exists.
pub process_line_lem :
    (k : Connection) (received : Text)
    → IsConnection k
    → (lacks_argument (trim received) ≡ true) × (process_line k received ≡ none)
      ⊎ ((lacks_argument (trim received) ≡ false) × Serves (process_line k received))
process_line_lem k received h = elim (Bool-cases (lacks_argument (trim received))) [
  | inl lacking ↦ inl (lacking, panics k received lacking)
  | inr enough ↦ inr (enough, served k h received enough)
]

-- When a well-formed connection breaks, its user, if one is logged in, leaves all channels without
-- a panic, and nothing else about membership changes.
pub handle_unexpected_close_lem :
    (k : Connection)
    → IsConnection k
    → (s : AppState) × (handle_unexpected_close k ≡ some s)
      × ((u : Text) → k.user ≡ some u → Leaves u (λ c. true) k.shared s)
unfolding handle_unexpected_close
handle_unexpected_close_lem k h = elim (Option-cases k.user) [
  | inl nobody ↦ (k.shared, ground arith, λ u e. ground arith)
  | inr (v, e) ↦
      let (s, left, leaves) = leave_all_channels_lem k.shared v h.indexed in
      (
        s,
        ground (arith, e, left),
        λ u e'. subst (λ w. Leaves w (λ c. true) k.shared s) {x = v} (ground arith) leaves,
      )
]
