-- ===== src/Tests/Sockets.antt =====
-- A connection whose bytes come in one read or in two.
use cs.Base.{
  ℕ, ◌≡◌, refl, Option, none, some, List, [], ◌∷◌, ◌++◌, if◌then◌else◌, ltb, nat_beq, inl, inr,
  arith, Option-cases,
}
use cs.Base.Text.{Text, lit}
use cs.Chat.{add_user, new_app_state}
use cs.Chat.Sockets.{Utf8, Environment, failed, bytes, process_socket}
use cs.Chat.Reads.{IsWhole, process_socket_same}

-- ASCII.
abbrev from_ascii : List ℕ → Option Text
from_ascii [] = some []
from_ascii (b ∷ bs) = elim (from_ascii bs) [
  | none ↦ none
  | some t ↦ if ltb b 128 then some (b ∷ t) else none
]

from_ascii-append :
    (a b : List ℕ) (s t : Text)
    → from_ascii a ≡ some s
    → from_ascii b ≡ some t
    → from_ascii (a ++ b) ≡ some (s ++ t)
from_ascii-append [] b s t h e = rw e cc
from_ascii-append (c ∷ a) b s t h e = elim (Option-cases (from_ascii a)) [
  | inl p ↦ ground (arith, p)
  | inr (s', p) ↦ ground (arith, p, from_ascii-append a b s' t p e)
]

abbrev ascii : Utf8
ascii = record {
  from_utf8 = from_ascii;
  from_utf8-append = from_ascii-append;
  from_utf8-empty = refl;
}

abbrev first_half : List ℕ
first_half = lit "REGISTER al"

abbrev second_half : List ℕ
second_half = lit "ice\nLIST CHANNELS\n"

abbrev whole : List ℕ
whole = lit "REGISTER alice\nLIST CHANNELS\n"

-- Between the first answer and the second another client registers; the third write would fail.
abbrev others : Environment
others = record {
  meanwhile = λ n s. if nat_beq n 1 then add_user s (lit "bob") else s;
  can_write = λ n. ltb n 2;
}

whole-IsWhole : IsWhole ascii whole
unfolding lit
whole-IsWhole = ((λ e. cc), (whole, refl))

first_half-IsWhole : IsWhole ascii first_half
unfolding lit
first_half-IsWhole = ((λ e. cc), (first_half, refl))

second_half-IsWhole : IsWhole ascii second_half
unfolding lit
second_half-IsWhole = ((λ e. cc), (second_half, refl))

process_socket_same_example :
    process_socket ascii others new_app_state (bytes first_half ∷ bytes second_half ∷ failed ∷ [])
    ≡ process_socket ascii others new_app_state (bytes whole ∷ failed ∷ [])
process_socket_same_example =
    process_socket_same ascii others new_app_state (first_half ∷ second_half ∷ []) (whole ∷ [])
      (failed ∷ []) (first_half-IsWhole, (second_half-IsWhole, tt)) (whole-IsWhole, tt)
      (unfold lit in refl)
