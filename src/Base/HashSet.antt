-- ===== src/Base/HashSet.antt =====
-- std::collections::HashSet: a list of keys that holds each key once. The order in which the
-- source's set is iterated is arbitrary; here it is the order of insertion, latest first.
use cs.Base.Tests.{Eq, ◌==◌, if◌then◌else◌, Bool-cases}
use mathlib.Core.Path.{◌≡◌}
use mathlib.Core.Logic.{inl, inr}
use mathlib.Core.Bool.{Bool, false, not, ◌&&◌, ◌||◌}
use mathlib.Core.List.{List, [], ◌∷◌}
use native.Mathlib.Omega.{arith}

abbrev pub HashSet {ℓ} : Type ℓ → Type ℓ
HashSet A = List A

module _ {ℓ} {A : Type ℓ} ⦃e : Eq A⦄ where
  unfoldable pub contains : A → HashSet A → Bool
  contains a [] = false
  contains a (x ∷ s) = x == a || contains a s

  -- The set after the call; the result of the source's call is `not (contains a s)`.
  unfoldable pub insert : A → HashSet A → HashSet A
  unfolding contains
  insert a s = if contains a s then s else a ∷ s

  unfoldable pub remove : A → HashSet A → HashSet A
  remove a [] = []
  remove a (x ∷ s) = let rest = remove a s in if x == a then rest else x ∷ rest

  -- No key stands twice.
  abbrev pub IsNodup : HashSet A → Type 0
  IsNodup [] = Unit
  IsNodup (x ∷ s) = (contains x s ≡ false) × IsNodup s

  pub contains-insert :
      (k j : A) (s : HashSet A) → contains j (insert k s) ≡ (k == j || contains j s)
  unfolding contains insert
  contains-insert k j s = elim (Bool-cases (contains k s)) [
    | inl old ↦ ground (arith, e.beq_iff k j)
    | inr new ↦ ground (arith, e.beq_iff k j)
  ]

  pub contains-remove :
      (k j : A) (s : HashSet A) → contains j (remove k s) ≡ (not (k == j) && contains j s)
  unfolding contains remove
  contains-remove k j [] = ground arith
  contains-remove k j (x ∷ s) =
      ground (arith, contains-remove k j s, e.beq_iff x k, e.beq_iff x j, e.beq_iff k j)

  pub insert-IsNodup : (k : A) (s : HashSet A) → IsNodup s → IsNodup (insert k s)
  unfolding insert
  insert-IsNodup k s h = ground arith

  pub remove-IsNodup : (k : A) (s : HashSet A) → IsNodup s → IsNodup (remove k s)
  unfolding remove
  remove-IsNodup k [] h = h
  remove-IsNodup k (x ∷ s) h = ground (arith, remove-IsNodup k s h.1, contains-remove k x s)
