-- ===== src/Base/Decimal.antt =====
-- Decimal texts: what `format!("{}", n)` prints for a usize and what `str::parse::<usize>` reads.
use Prim.Native.Nat.{ℕ, zero, suc, ◌+◌, ◌-◌, ◌*◌, ◌/◌, ◌%◌, ◌^◌, ◌<◌, ◌≤◌}
use mathlib.Core.Path.{◌≡◌, refl, ◌∙◌}
use mathlib.Core.Logic.{inl, inr, ◌≢◌}
use mathlib.Core.Bool.{Bool, false, ◌&&◌}
use mathlib.Core.Option.{Option, none, some}
use mathlib.Core.List.{[], ◌∷◌, ◌++◌}
use native.Mathlib.Omega.{arith}
use cs.Base.Tests.{ltb, leb, nat_beq, if◌then◌else◌, Bool-cases}
use cs.Base.Lists.{All}
use cs.Base.Text.{Text}

abbrev pub usize_mod : ℕ
usize_mod = 2 ^ 64

-- The recursive call is made only for the digits that are there; `suc n` rounds are enough.
digits : ℕ → ℕ → Text
digits zero n = []
digits (suc f) n =
    let rest = digits f (n / 10) in
    if ltb n 10 then (n + b'0') ∷ [] else rest ++ (n % 10 + b'0') ∷ []

unfoldable pub decimal : ℕ → Text
unfolding digits
decimal n = digits (suc n) n

is_digit : ℕ → Bool
is_digit c = leb b'0' c && leb c b'9'

-- `none` is a ParseIntError.
parse_digits : ℕ → Text → Option ℕ
unfolding is_digit
parse_digits acc [] = some acc
parse_digits acc (c ∷ s) =
    let v = acc * 10 + (c - b'0') in
    let rest = parse_digits v s in if is_digit c && ltb v usize_mod then rest else none

unsigned : Text → Option ℕ
unfolding parse_digits
unsigned [] = none
unsigned (c ∷ s) = parse_digits 0 (c ∷ s)

unfoldable pub parse_usize : Text → Option ℕ
unfolding unsigned
parse_usize [] = none
parse_usize (c ∷ s) = if nat_beq c b'+' then unsigned s else unsigned (c ∷ s)

abbrev pub IsDigit : ℕ → Type 0
IsDigit c = (b'0' ≤ c) × (c ≤ b'9')

All-snoc : (s : Text) (c : ℕ) → All IsDigit s → IsDigit c → All IsDigit (s ++ c ∷ [])
All-snoc [] c h d = (d, tt)
All-snoc (x ∷ s) c h d = (h.0, All-snoc s c h.1 d)

digits-IsDigit : (f n : ℕ) → All IsDigit (digits f n)
unfolding digits
digits-IsDigit zero n = tt
digits-IsDigit (suc f) n = elim (Bool-cases (ltb n 10)) [
  | inl small ↦ rw small ((omega arith, ground arith), tt)
  | inr big ↦ rw big (All-snoc _ _ (digits-IsDigit f (n / 10)) (omega arith, omega arith))
]

pub decimal-IsDigit : (n : ℕ) → All IsDigit (decimal n)
unfolding decimal
decimal-IsDigit n = digits-IsDigit (suc n) n

parse_digits-append :
    (s t : Text) (acc : ℕ) {v : ℕ}
    → parse_digits acc s ≡ some v
    → parse_digits acc (s ++ t) ≡ parse_digits v t
unfolding parse_digits
parse_digits-append [] t acc h = ground arith
parse_digits-append (c ∷ s) t acc {v} h =
    ground (arith, parse_digits-append s t (acc * 10 + (c - b'0')) {v = v})

parse_digits-digits : (f n : ℕ) → n < f → n < usize_mod → parse_digits 0 (digits f n) ≡ some n
unfolding digits
parse_digits-digits zero n h b = elim h [ ]
parse_digits-digits (suc f) n h b = elim (Bool-cases (ltb n 10)) [
  | inl small ↦ rw small (unfold parse_digits in ground arith)
  | inr big ↦ rw big (
      parse_digits-append (digits f (n / 10)) ((n % 10 + b'0') ∷ []) 0
        (parse_digits-digits f (n / 10) (ground arith) (omega arith))
      ∙ unfold parse_digits in ground arith)
]

parse_usize-unsigned : (s : Text) → All IsDigit s → parse_usize s ≡ unsigned s
unfolding parse_usize
parse_usize-unsigned [] h = refl
parse_usize-unsigned (c ∷ s) h = ground arith

unsigned-of_some : (s : Text) {v : ℕ} → s ≢ [] → parse_digits 0 s ≡ some v → unsigned s ≡ some v
unfolding unsigned
unsigned-of_some [] h e = absurd (h refl)
unsigned-of_some (c ∷ s) h e = e

snoc-ne-nil : (s : Text) (c : ℕ) → (s ++ c ∷ []) ≢ []
snoc-ne-nil [] c h = cc
snoc-ne-nil (x ∷ s) c h = cc

digits-ne-nil : (f n : ℕ) → digits (suc f) n ≢ []
unfolding digits
digits-ne-nil f n = elim (Bool-cases (ltb n 10)) [
  | inl small ↦ rw small (λ h. cc)
  | inr big ↦ rw big (snoc-ne-nil (digits f (n / 10)) (n % 10 + b'0'))
]

-- No digit is a dash.
pub All-ne_dash : (s : Text) → All IsDigit s → All (λ c. nat_beq c b'-' ≡ false) s
All-ne_dash [] h = tt
All-ne_dash (c ∷ s) h = (ground arith, All-ne_dash s h.1)

-- What is printed for a usize is read back.
pub parse_usize-decimal : (n : ℕ) → n < usize_mod → parse_usize (decimal n) ≡ some n
unfolding decimal
parse_usize-decimal n h =
    parse_usize-unsigned (digits (suc n) n) (digits-IsDigit (suc n) n)
    ∙ unsigned-of_some _ (digits-ne-nil n n) (parse_digits-digits (suc n) n (omega arith) h)
