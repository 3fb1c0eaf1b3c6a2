-- ===== src/Base/HashMap.antt =====
-- std::collections::HashMap as an association list that holds each key once. The program reads
-- maps by key; where it iterates over one, the order is arbitrary in the source.
use cs.Base.Tests.{Eq, beq_refl, ◌==◌, if◌then◌else◌}
use cs.Base.HashSet.{contains, IsNodup}
use mathlib.Core.Path.{◌≡◌, refl}
use mathlib.Core.Bool.{Bool, true, false, not, ◌&&◌, ◌||◌}
use mathlib.Core.Option.{Option, none, some}
use mathlib.Core.List.{List, [], ◌∷◌}
use native.Mathlib.Omega.{arith}

abbrev pub HashMap {ℓ κ} : Type ℓ → Type κ → Type (ℓ ⊔ κ)
HashMap K V = List (K × V)

module _ {ℓ κ} {K : Type ℓ} {V : Type κ} ⦃e : Eq K⦄ where
  unfoldable pub get : K → HashMap K V → Option V
  get k [] = none
  get k ((j, v) ∷ m) = if j == k then some v else get k m

  unfoldable pub insert : K → V → HashMap K V → HashMap K V
  insert k v [] = (k, v) ∷ []
  insert k v ((j, w) ∷ m) = if j == k then (k, v) ∷ m else (j, w) ∷ insert k v m

  unfoldable pub remove : K → HashMap K V → HashMap K V
  remove k [] = []
  remove k ((j, w) ∷ m) = let rest = remove k m in if j == k then rest else (j, w) ∷ rest

  unfoldable pub contains_key : K → HashMap K V → Bool
  unfolding get
  contains_key k m = elim (get k m) [ none ↦ false | some _ ↦ true ]

  -- `entry(k).or_insert(v)`: the value that is then there, and the map.
  unfoldable pub or_insert : K → V → HashMap K V → V × HashMap K V
  or_insert k v m = elim (get k m) [ none ↦ (v, insert k v m) | some w ↦ (w, m) ]

  unfoldable pub keys : HashMap K V → List K
  keys [] = []
  keys ((k, v) ∷ m) = k ∷ keys m

  pub get-insert :
      (k j : K) (v : V) (m : HashMap K V)
      → get j (insert k v m) ≡ (if k == j then some v else get j m)
  unfolding get insert
  get-insert k j v [] = refl
  get-insert k j v ((i, w) ∷ m) =
      ground (arith, e.beq_iff k j, e.beq_iff i k, e.beq_iff i j, get-insert k j v m)

  pub get-insert_self : (k : K) (v : V) (m : HashMap K V) → get k (insert k v m) ≡ some v
  get-insert_self k v m = rw (get-insert k k v m, beq_refl k)

  -- The later of two writes to one key is all that counts.
  pub insert-insert : (k : K) (v w : V) (m : HashMap K V) → insert k v (insert k w m) ≡ insert k v m
  unfolding insert
  insert-insert k v w [] = rw (beq_refl k)
  insert-insert k v w ((i, x) ∷ m) = ground (arith, beq_refl k, insert-insert k v w m)

  pub get-remove :
      (k j : K) (m : HashMap K V) → get j (remove k m) ≡ (if k == j then none else get j m)
  unfolding get remove
  get-remove k j [] = ground arith
  get-remove k j ((i, w) ∷ m) =
      ground (arith, e.beq_iff k j, e.beq_iff i k, e.beq_iff i j, get-remove k j m)

  pub contains_key-insert :
      (k j : K) (v : V) (m : HashMap K V)
      → contains_key j (insert k v m) ≡ (k == j || contains_key j m)
  unfolding contains_key
  contains_key-insert k j v m = ground (arith, get-insert k j v m)

  pub contains-keys-insert :
      (k j : K) (v : V) (m : HashMap K V)
      → contains j (keys (insert k v m)) ≡ (k == j || contains j (keys m))
  unfolding keys insert contains
  contains-keys-insert k j v [] = refl
  contains-keys-insert k j v ((i, w) ∷ m) =
      ground (arith, e.beq_iff i k, e.beq_iff i j, e.beq_iff k j, contains-keys-insert k j v m)

  pub keys-insert-IsNodup :
      (k : K) (v : V) (m : HashMap K V) → IsNodup (keys m) → IsNodup (keys (insert k v m))
  unfolding keys insert
  keys-insert-IsNodup k v [] h = (unfold contains in refl, tt)
  keys-insert-IsNodup k v ((i, w) ∷ m) h = ground (
    arith,
    e.beq_iff i k,
    e.beq_iff k i,
    contains-keys-insert k i v m,
    keys-insert-IsNodup k v m h.1,
  )

  -- The keys are the texts under which something is found.
  pub contains-keys : (k : K) (m : HashMap K V) → contains k (keys m) ≡ contains_key k m
  unfolding keys contains contains_key get
  contains-keys k [] = refl
  contains-keys k ((i, w) ∷ m) = ground (arith, contains-keys k m)

  pub contains-keys-remove :
      (k j : K) (m : HashMap K V)
      → contains j (keys (remove k m)) ≡ (not (k == j) && contains j (keys m))
  unfolding keys remove contains
  contains-keys-remove k j [] = ground arith
  contains-keys-remove k j ((i, w) ∷ m) =
      ground (arith, e.beq_iff i k, e.beq_iff i j, e.beq_iff k j, contains-keys-remove k j m)

  pub keys-remove-IsNodup :
      (k : K) (m : HashMap K V) → IsNodup (keys m) → IsNodup (keys (remove k m))
  unfolding keys remove
  keys-remove-IsNodup k [] h = h
  keys-remove-IsNodup k ((i, w) ∷ m) h =
      ground (arith, contains-keys-remove k i m, keys-remove-IsNodup k m h.1)
