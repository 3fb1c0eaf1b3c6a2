-- ===== src/Base/Text.antt =====
-- Rust's String as the list of its code points. Byte order of UTF-8 and order of code points agree,
-- so comparison, search for an ASCII character and splitting are the source's.
use Prim.Native.Char.{code}
use Prim.Native.String.{String}
use Prim.Native.Nat.{ℕ}
use mathlib.Core.Path.{◌≡◌, refl}
use mathlib.Core.Logic.{inl, inr}
use mathlib.Core.Bool.{Bool, true, false, ◌&&◌, ◌||◌}
use mathlib.Core.Option.{Option, none, some}
use mathlib.Core.List.{List, [], ◌∷◌, ◌++◌, reverse}
use native.Mathlib.Omega.{arith}
use cs.Base.Tests.{leb, nat_beq, if◌then◌else◌, Bool-cases}
use cs.Base.Lists.{All}

abbrev pub Text : Type 0
Text = List ℕ

-- A literal.
unfoldable pub lit : String → Text
lit String.[] = []
lit (String.◌∷◌ c s) = code c ∷ lit s

unfoldable pub starts_with_char : ℕ → Text → Bool
starts_with_char c [] = false
starts_with_char c (d ∷ s) = nat_beq d c

unfoldable pub starts_with : Text → Text → Bool
starts_with [] s = true
starts_with (c ∷ p) [] = false
starts_with (c ∷ p) (d ∷ s) = nat_beq c d && starts_with p s

abbrev cons_first : ℕ → Option (Text × Text) → Option (Text × Text)
cons_first c none = none
cons_first c (some (a, b)) = some (c ∷ a, b)

-- `str::split_once` at a character: what stands before and behind the first one.
unfoldable pub split_once : ℕ → Text → Option (Text × Text)
split_once sep [] = none
split_once sep (c ∷ s) =
    let rest = split_once sep s in if nat_beq c sep then some ([], s) else cons_first c rest

-- `char::is_whitespace`: the characters with Unicode's property White_Space.
unfoldable pub is_whitespace : ℕ → Bool
is_whitespace c =
    leb 9 c && leb c 13
    || nat_beq c 32
    || nat_beq c 133
    || nat_beq c 160
    || nat_beq c 5760
    || leb 8192 c && leb c 8202
    || nat_beq c 8232
    || nat_beq c 8233
    || nat_beq c 8239
    || nat_beq c 8287
    || nat_beq c 12288

trim_start : Text → Text
unfolding is_whitespace
trim_start [] = []
trim_start (c ∷ s) = let rest = trim_start s in if is_whitespace c then rest else c ∷ s

unfoldable pub trim : Text → Text
unfolding trim_start
trim s = reverse (trim_start (reverse (trim_start s)))

abbrev pub has_char : ℕ → Text → Bool
has_char sep [] = false
has_char sep (c ∷ s) = nat_beq c sep || has_char sep s

pub split_once-no_char : (sep : ℕ) (s : Text) → has_char sep s ≡ false → split_once sep s ≡ none
unfolding split_once
split_once-no_char sep [] h = refl
split_once-no_char sep (c ∷ s) h = ground (arith, split_once-no_char sep s)

pub split_once-has_char :
    (sep : ℕ) (s : Text) → has_char sep s ≡ true → (p : Text × Text) × (split_once sep s ≡ some p)
unfolding split_once
split_once-has_char sep [] h = cc
split_once-has_char sep (c ∷ s) h = elim (Bool-cases (nat_beq c sep)) [
  | inl here ↦ (([], s), ground arith)
  | inr later ↦
      let (p, e) = split_once-has_char sep s (ground arith) in ((c ∷ p.0, p.1), ground (arith, e))
]

-- `str::split` at a character, and the last piece.
cons_piece : ℕ → List Text → List Text
cons_piece c [] = (c ∷ []) ∷ []
cons_piece c (p ∷ ps) = (c ∷ p) ∷ ps

unfoldable pub split : ℕ → Text → List Text
unfolding cons_piece
split sep [] = [] ∷ []
split sep (c ∷ s) = let rest = split sep s in if nat_beq c sep then [] ∷ rest else cons_piece c rest

unfoldable pub last {ℓ} : {A : Type ℓ} → List A → Option A
last [] = none
last (x ∷ []) = some x
last (x ∷ y ∷ xs) = last (y ∷ xs)

split-no_sep : (sep : ℕ) (s : Text) → All (λ c. nat_beq c sep ≡ false) s → split sep s ≡ s ∷ []
unfolding split
split-no_sep sep [] h = refl
split-no_sep sep (c ∷ s) h = rw (h.0, split-no_sep sep s h.1)

-- At least two pieces, the last of which is `b`.
record EndsIn (b : Text) (pieces : List Text) : Type 0 where
  first : Text
  second : Text
  others : List Text
  shape : pieces ≡ first ∷ second ∷ others
  ends : last (second ∷ others) ≡ some b

split-EndsIn :
    (sep : ℕ) (a b : Text)
    → All (λ c. nat_beq c sep ≡ false) b
    → EndsIn b (split sep (a ++ sep ∷ b))
unfolding split last
split-EndsIn sep [] b h = record {
  first = [];
  second = b;
  others = [];
  shape = rw (split-no_sep sep b h) (ground arith);
  ends = refl;
}
split-EndsIn sep (c ∷ a) b h =
    let ih = split-EndsIn sep a b h in
    elim (Bool-cases (nat_beq c sep)) [
      | inl e ↦ record {
        first = [];
        second = ih.first;
        others = ih.second ∷ ih.others;
        shape = rw (e, ih.shape);
        ends = ih.ends;
      }
      | inr e ↦ record {
        first = c ∷ ih.first;
        second = ih.second;
        others = ih.others;
        shape = rw (e, ih.shape);
        ends = ih.ends;
      }
    ]

last-of_EndsIn : (b : Text) (pieces : List Text) → EndsIn b pieces → last pieces ≡ some b
last-of_EndsIn b pieces h = rw (h.shape) (unfold last in h.ends)

-- What stands behind the last separator is the last piece.
pub last-split-append :
    (sep : ℕ) (a b : Text)
    → All (λ c. nat_beq c sep ≡ false) b
    → last (split sep (a ++ sep ∷ b)) ≡ some b
last-split-append sep a b h = last-of_EndsIn b _ (split-EndsIn sep a b h)
