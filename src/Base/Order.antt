-- ===== src/Base/Order.antt =====
-- `Ord` for String, and `sort` and `dedup` on a Vec of strings.
use cs.Base.Tests.{ltb, nat_beq, text_beq, text_beq_iff, text_eq, ◌==◌, if◌then◌else◌, Bool-cases}
use cs.Base.HashSet.{contains}
use Prim.Native.Nat.{ℕ}
use mathlib.Core.Path.{◌≡◌, refl, sym, ◌∙◌, subst}
use mathlib.Core.Logic.{inl, inr}
use mathlib.Core.Bool.{Bool, true, false, ◌&&◌, ◌||◌}
use mathlib.Core.List.{List, [], ◌∷◌}
use native.Mathlib.Omega.{arith}

-- Lexicographic.
unfoldable pub text_ltb : List ℕ → List ℕ → Bool
text_ltb [] [] = false
text_ltb [] (d ∷ t) = true
text_ltb (c ∷ s) [] = false
text_ltb (c ∷ s) (d ∷ t) = let rest = text_ltb s t in ltb c d || nat_beq c d && rest

text_ltb_asym : (s t : List ℕ) → text_ltb s t ≡ true → text_ltb t s ≡ false
unfolding text_ltb
text_ltb_asym [] [] h = refl
text_ltb_asym [] (d ∷ t) h = refl
text_ltb_asym (c ∷ s) [] h = ground arith
text_ltb_asym (c ∷ s) (d ∷ t) h = ground (arith, text_ltb_asym s t)

text_ltb_total : (s t : List ℕ) → text_ltb s t ≡ false → (s == t) ≡ false → text_ltb t s ≡ true
unfolding text_ltb text_beq
text_ltb_total [] [] h n = ground arith
text_ltb_total [] (d ∷ t) h n = ground arith
text_ltb_total (c ∷ s) [] h n = refl
text_ltb_total (c ∷ s) (d ∷ t) h n = ground (arith, text_ltb_total s t)

unfoldable pub insert_text : List ℕ → List (List ℕ) → List (List ℕ)
insert_text t [] = t ∷ []
insert_text t (x ∷ xs) =
    let rest = insert_text t xs in if text_ltb x t then x ∷ rest else t ∷ x ∷ xs

unfoldable pub sort : List (List ℕ) → List (List ℕ)
sort [] = []
sort (x ∷ xs) = insert_text x (sort xs)

-- What follows x.
unfoldable pub dedup_after : List ℕ → List (List ℕ) → List (List ℕ)
dedup_after x [] = []
dedup_after x (y ∷ ys) = let rest = dedup_after y ys in if x == y then rest else y ∷ rest

unfoldable pub dedup : List (List ℕ) → List (List ℕ)
dedup [] = []
dedup (x ∷ xs) = x ∷ dedup_after x xs

-- Each element is less than the next.
abbrev pub AscendsFrom : List ℕ → List (List ℕ) → Type 0
AscendsFrom x [] = Unit
AscendsFrom x (y ∷ ys) = (text_ltb x y ≡ true) × AscendsFrom y ys

abbrev pub Ascends : List (List ℕ) → Type 0
Ascends [] = Unit
Ascends (x ∷ xs) = AscendsFrom x xs

abbrev SortedFrom : List ℕ → List (List ℕ) → Type 0
SortedFrom x [] = Unit
SortedFrom x (y ∷ ys) = (text_ltb y x ≡ false) × SortedFrom y ys

abbrev Sorted : List (List ℕ) → Type 0
Sorted [] = Unit
Sorted (x ∷ xs) = SortedFrom x xs

insert_text-SortedFrom :
    (t x : List ℕ) (xs : List (List ℕ))
    → SortedFrom x xs
    → text_ltb t x ≡ false
    → SortedFrom x (insert_text t xs)
unfolding insert_text
insert_text-SortedFrom t x [] h le = (le, tt)
insert_text-SortedFrom t x (y ∷ ys) h le = elim (Bool-cases (text_ltb y t)) [
  | inl less ↦ rw less (h.0, insert_text-SortedFrom t y ys h.1 (text_ltb_asym y t less))
  | inr more ↦ rw more (le, (more, h.1))
]

insert_text-Sorted : (t : List ℕ) (xs : List (List ℕ)) → Sorted xs → Sorted (insert_text t xs)
unfolding insert_text
insert_text-Sorted t [] h = tt
insert_text-Sorted t (x ∷ xs) h = elim (Bool-cases (text_ltb x t)) [
  | inl less ↦ rw less (insert_text-SortedFrom t x xs h (text_ltb_asym x t less))
  | inr more ↦ rw more (more, h)
]

sort-Sorted : (xs : List (List ℕ)) → Sorted (sort xs)
unfolding sort
sort-Sorted [] = tt
sort-Sorted (x ∷ xs) = insert_text-Sorted x (sort xs) (sort-Sorted xs)

dedup_after-AscendsFrom :
    (x : List ℕ) (xs : List (List ℕ)) → SortedFrom x xs → AscendsFrom x (dedup_after x xs)
unfolding dedup_after
dedup_after-AscendsFrom x [] h = tt
dedup_after-AscendsFrom x (y ∷ ys) h = elim (Bool-cases (x == y)) [
  | inl same ↦ rw same (
      subst (λ z. AscendsFrom z (dedup_after y ys)) (sym ((text_beq_iff x y).0 same))
        (dedup_after-AscendsFrom y ys h.1))
  | inr other ↦ rw other (
    text_ltb_total y x h.0 (ground (arith, text_beq_iff x y, text_beq_iff y x)),
    dedup_after-AscendsFrom y ys h.1,
  )
]

pub dedup-sort-Ascends : (xs : List (List ℕ)) → Ascends (dedup (sort xs))
unfolding dedup
dedup-sort-Ascends xs = go (sort xs) (sort-Sorted xs)
  where
    go : (ys : List (List ℕ)) → Sorted ys → Ascends (dedup ys)
    go [] h = tt
    go (y ∷ ys) h = dedup_after-AscendsFrom y ys h

contains-insert_text :
    (u t : List ℕ) (xs : List (List ℕ)) → contains u (insert_text t xs) ≡ (t == u || contains u xs)
unfolding insert_text contains
contains-insert_text u t [] = ground arith
contains-insert_text u t (x ∷ xs) = ground (arith, contains-insert_text u t xs)

contains-dedup_after :
    (u x : List ℕ) (xs : List (List ℕ))
    → (x == u || contains u (dedup_after x xs)) ≡ (x == u || contains u xs)
unfolding dedup_after contains
contains-dedup_after u x [] = refl
contains-dedup_after u x (y ∷ ys) =
    ground
      (arith, contains-dedup_after u y ys, text_beq_iff x y, text_beq_iff x u, text_beq_iff y u)

contains-sort : (u : List ℕ) (xs : List (List ℕ)) → contains u (sort xs) ≡ contains u xs
unfolding sort contains
contains-sort u [] = refl
contains-sort u (x ∷ xs) = ground (arith, contains-insert_text u x (sort xs), contains-sort u xs)

contains-dedup : (u : List ℕ) (xs : List (List ℕ)) → contains u (dedup xs) ≡ contains u xs
unfolding dedup contains
contains-dedup u [] = refl
contains-dedup u (x ∷ xs) = contains-dedup_after u x xs

pub contains-dedup-sort :
    (u : List ℕ) (xs : List (List ℕ)) → contains u (dedup (sort xs)) ≡ contains u xs
contains-dedup-sort u xs = contains-dedup u (sort xs) ∙ contains-sort u xs
