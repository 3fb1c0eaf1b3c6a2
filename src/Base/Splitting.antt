-- ===== src/Base/Splitting.antt =====
-- What `split_once` gives on a text that is continued.
use Prim.Native.Nat.{ℕ, ◌<◌}
use mathlib.Core.Path.{◌≡◌}
use mathlib.Core.Logic.{inl, inr}
use mathlib.Core.Option.{some}
use mathlib.Core.List.{[], ◌∷◌, ◌++◌}
use native.Mathlib.Omega.{arith}
use cs.Base.Tests.{Option-cases}
use cs.Base.Lists.{length}
use cs.Base.Text.{Text, split_once}

pub split_once-append :
    (sep : ℕ) (s t a b : Text)
    → split_once sep s ≡ some (a, b)
    → split_once sep (s ++ t) ≡ some (a, b ++ t)
unfolding split_once
split_once-append sep [] t a b h = cc
split_once-append sep (c ∷ s) t a b h = elim (Option-cases (split_once sep s)) [
  | inl e ↦ ground (arith, e)
  | inr ((a', b'), e) ↦ ground (arith, e, split_once-append sep s t a' b' e)
]

pub split_once-shorter :
    (sep : ℕ) (s a b : Text) → split_once sep s ≡ some (a, b) → length b < length s
unfolding split_once
split_once-shorter sep [] a b h = cc
split_once-shorter sep (c ∷ s) a b h = elim (Option-cases (split_once sep s)) [
  | inl e ↦ ground (arith, e)
  | inr ((a', b'), e) ↦ ground (arith, e, split_once-shorter sep s a' b' e)
]
