-- ===== src/Discord/Insertion.antt =====
-- `BTreeSet::insert` on a channel's messages: what it reports and what it leaves.
use mathlib.Core.Path.{ap₂}
use native.Mathlib.Decide.{dec_lt, ℕ_discrete}
use cs.Base.{
  ℕ, suc, ◌≤◌, ◌<◌, ◌≡◌, refl, Bool, true, false, none, some, List, [], ◌∷◌, arith, if◌then◌else◌,
  nat_beq, length, ◌&&◌,
}
use cs.Base.Text.{Text}
use cs.Base.Decimal.{usize_mod}
use cs.Discord.Types.{Message}
use cs.Discord.Messages.{insert_message}
use cs.Discord.Numbering.{HasId, numeric-of_HasId}
use cs.Discord.Order.{InRange, find, find-nil, find-below, is_none}

module _ (c : Text) where
  -- `BTreeSet::insert` never panics, keeps the order, reports whether the number was absent, and
  -- leaves the set with the message under its number exactly if it was absent.
  pub record Inserted (n lo hi : ℕ) (m : Message) (ms : List Message) (r : Bool × List Message)
      : Type 0 where
    pub reports : r.0 ≡ is_none (find n ms)
    pub ordered : InRange c lo hi r.1
    pub counts : length r.1 ≡ (if r.0 then suc (length ms) else length ms)
    pub finds :
        (j : ℕ) → find j r.1 ≡ (if is_none (find n ms) && nat_beq n j then some m else find j ms)

  -- The three outcomes of one comparison.
  module _ {lo hi : ℕ} (x : Message) (xs : List Message) (m : Message) (n k : ℕ)
      (b : hi ≤ usize_mod) (id : HasId c n m) (xid : HasId c k x) (above : lo ≤ k) (below : k < hi)
      (rest : InRange c (suc k) hi xs) where
    insert-before :
        lo ≤ n
        → n < k
        → (r : Bool × List Message) × (insert_message m (x ∷ xs) ≡ some r)
          × Inserted n lo hi m (x ∷ xs) r
    unfolding insert_message find
    insert-before p q =
        let mn = numeric-of_HasId c n m id (omega arith) in
        let xk = numeric-of_HasId c k x xid (omega arith) in
        (
          (true, m ∷ x ∷ xs),
          ground arith,
          record {
            reports = ground (arith, find-below c n (suc k) hi xs (omega arith) b rest);
            ordered = (n, id, p, omega arith, (k, xid, q, below, rest));
            counts = refl;
            finds = λ j. ground (arith, find-below c n (suc k) hi xs (omega arith) b rest);
          },
        )

    insert-equal :
        n ≡ k
        → (r : Bool × List Message) × (insert_message m (x ∷ xs) ≡ some r)
          × Inserted n lo hi m (x ∷ xs) r
    unfolding insert_message find
    insert-equal e =
        let mn = numeric-of_HasId c n m id (omega arith) in
        let xk = numeric-of_HasId c k x xid (omega arith) in
        (
          (false, x ∷ xs),
          ground arith,
          record {
            reports = ground arith;
            ordered = (k, xid, above, below, rest);
            counts = refl;
            finds = λ j. ground arith;
          },
        )

    insert-after :
        k < n
        → n < hi
        → (r : Bool × List Message) → insert_message m xs ≡ some r
        → Inserted n (suc k) hi m xs r
        → (r : Bool × List Message) × (insert_message m (x ∷ xs) ≡ some r)
          × Inserted n lo hi m (x ∷ xs) r
    unfolding insert_message find
    insert-after p q r e ins =
        let mn = numeric-of_HasId c n m id (omega arith) in
        let xk = numeric-of_HasId c k x xid (omega arith) in
        (
          (r.0, x ∷ r.1),
          ground arith,
          record {
            reports = ground (arith, ins.reports);
            ordered = (k, xid, above, below, ins.ordered);
            counts = ground (arith, ins.counts);
            finds = λ j. ground (arith, ins.finds j);
          },
        )

  -- The insertion of a message with number n into a channel's messages, whose numbers ascend strictly
  -- between lo and hi, does not panic: it reports whether the number was free, keeps the numbers
  -- ascending and without repetition, adds the message exactly if the number was free, and leaves
  -- what is found under every other number.
  pub insert_message-Inserted :
      (lo hi : ℕ) (ms : List Message) (m : Message) (n : ℕ)
      → lo ≤ n
      → n < hi
      → hi ≤ usize_mod
      → HasId c n m
      → InRange c lo hi ms
      → (r : Bool × List Message) × (insert_message m ms ≡ some r) × Inserted n lo hi m ms r
  insert_message-Inserted lo hi [] m n p q b id h = (
    (true, m ∷ []),
    unfold insert_message in refl,
    record {
      reports = unfold find in refl;
      ordered = (n, id, p, q, tt);
      counts = refl;
      finds = λ j. unfold find in ground (arith, numeric-of_HasId c n m id (omega arith));
    },
  )
  insert_message-Inserted lo hi (x ∷ xs) m n p q b id (k, xid, above, below, rest) =
      elim (dec_lt n k) [
        | yes before ↦ insert-before x xs m n k b id xid above below rest p before
        | no late ↦ elim (ℕ_discrete n k) [
          | yes same ↦ insert-equal x xs m n k b id xid above below rest same
          | no other ↦
              let (r, e, ins) =
                insert_message-Inserted (suc k) hi xs m n (omega arith) q b id rest in
              insert-after x xs m n k b id xid above below rest (omega arith) q r e ins
        ]
      ]

  module _ {hi : ℕ} (x : Message) (xs : List Message) (n : ℕ) (b : hi ≤ usize_mod)
      (id : HasId c n x) (below : n < hi) (rest : InRange c (suc n) hi xs) where
    find-head : find n (x ∷ xs) ≡ some x
    unfolding find
    find-head = ground (arith, numeric-of_HasId c n x id (omega arith))

    find-rest : (j : ℕ) → find j xs ≡ (if nat_beq n j then none else find j (x ∷ xs))
    unfolding find
    find-rest j = ground (
      arith,
      numeric-of_HasId c n x id (omega arith),
      find-below c n (suc n) hi xs (omega arith) b rest,
    )

  -- A sorted set is determined by what is found under each number.
  pub InRange-ext :
      (lo lo' hi hi' : ℕ) (xs ys : List Message)
      → hi ≤ usize_mod
      → hi' ≤ usize_mod
      → InRange c lo hi xs
      → InRange c lo' hi' ys
      → ((j : ℕ) → find j xs ≡ find j ys)
      → xs ≡ ys
  InRange-ext lo lo' hi hi' [] [] b b' hx hy same = refl
  InRange-ext lo lo' hi hi' [] (y ∷ ys) b b' hx (n, id, above, below, rest) same =
      cc (same n, find-head y ys n b' id below rest, find-nil n)
  InRange-ext lo lo' hi hi' (x ∷ xs) [] b b' (n, id, above, below, rest) hy same =
      cc (same n, find-head x xs n b id below rest, find-nil n)
  InRange-ext lo lo' hi hi' (x ∷ xs) (y ∷ ys) b b' (n, id, above, below, rest)
        (k, id', above', below', rest') same =
      let hx = find-head x xs n b id below rest in
      let hy = find-head y ys k b' id' below' rest' in
      let heads : n ≡ k = elim (dec_lt n k) [
        | yes lt ↦
            cc
              (same n, hx, find-below c n k hi' (y ∷ ys) lt b' (k, id', omega arith, below', rest'))
        | no ge ↦ elim (dec_lt k n) [
          | yes gt ↦
              cc (same k, hy, find-below c k n hi (x ∷ xs) gt b (n, id, omega arith, below, rest))
          | no le ↦ omega arith
        ]
      ] in
      let firsts : x ≡ y = cc (hx, hy, same n, heads) in
      ap₂ (λ z zs. z ∷ zs) firsts
        (InRange-ext (suc n) (suc k) hi hi' xs ys b b' rest rest' (λ j. ground (
          arith,
          same j,
          find-rest x xs n b id below rest j,
          find-rest y ys k b' id' below' rest' j,
        )))
