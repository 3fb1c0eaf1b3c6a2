-- ===== src/Middleware/Election/Sorting.antt =====
-- The sort of the election.
use mathlib.Core.List.{reverse-append}
use native.Mathlib.Decide.{dec_le}
use cs.Base.{
  beq_refl, ℕ, ◌≤◌, ◌<◌, ◌≡◌, refl, true, ◌||◌, Option, none, some, List, [], ◌∷◌, ◌++◌, reverse,
  leb, ◌==◌, text_eq, text_beq_iff, arith,
}
use cs.Base.HashSet.{contains}
use cs.Base.Text.{Text}
use cs.Config.{Server, Config, get_config_for}
use cs.Middleware.Election.Rounds.{
  sort_by_priority, insert_sorted, compare_servers, first_choice, head?,
}

-- The server's priority as configured.
abbrev pub HasPriority : Config → Text → ℕ → Type 0
HasPriority config id p = (s : Server) × (get_config_for config id ≡ some s) × (s.priority ≡ p)

abbrev pub Configured : Config → Text → Type 0
Configured config id = (s : Server) × (get_config_for config id ≡ some s)

abbrev pub priority_at : Option Server → ℕ
priority_at none = 0
priority_at (some s) = s.priority

-- The priority that the configuration gives an id, 0 for one that is not there.
unfoldable pub priority : Config → Text → ℕ
priority config id = priority_at (get_config_for config id)

-- All these servers are configured.
abbrev pub AllConfigured : Config → List Text → Type 0
AllConfigured config xs = (v : Text) → contains v xs ≡ true → Configured config v

-- From each server on, no later one has a lower priority.
abbrev Ascends : Config → List Text → Type 0
Ascends config [] = Unit
Ascends config (a ∷ as') =
    ((v : Text) → contains v as' ≡ true → priority config a ≤ priority config v)
    × Ascends config as'

module _ (config : Config) where
  compare_servers_lem :
      (a b : Text)
      → Configured config a
      → Configured config b
      → compare_servers config a b ≡ some (leb (priority config a) (priority config b))
  unfolding compare_servers priority
  compare_servers_lem a b (sa, ea) (sb, eb) = ground arith

  record Placed (a : Text) (bs cs' : List Text) : Type 0 where
    holds : (v : Text) → contains v cs' ≡ (a == v || contains v bs)
    ascends : Ascends config cs'

  module _ (a b : Text) (bs : List Text) (ca : Configured config a) (cb : Configured config b)
      (h : Ascends config (b ∷ bs)) where
    insert_before :
        priority config a ≤ priority config b
        → (insert_sorted config a (b ∷ bs) ≡ some (a ∷ b ∷ bs)) × Placed a (b ∷ bs) (a ∷ b ∷ bs)
    unfolding insert_sorted
    insert_before le = (
      ground (arith, compare_servers_lem a b ca cb),
      record {
        holds = λ v. unfold contains in refl;
        ascends = ((λ v m. unfold contains in ground (arith, text_beq_iff b v, h.0 v)), h);
      },
    )

    insert_behind :
        priority config b < priority config a
        → (cs' : List Text) → insert_sorted config a bs ≡ some cs'
        → Placed a bs cs'
        → (insert_sorted config a (b ∷ bs) ≡ some (b ∷ cs')) × Placed a (b ∷ bs) (b ∷ cs')
    unfolding insert_sorted
    insert_behind lt cs' e p = (
      ground (arith, compare_servers_lem a b ca cb),
      record {
        holds = λ v. unfold contains in ground (arith, p.holds v);
        ascends = ((λ v m. ground (arith, p.holds v, text_beq_iff a v, h.0 v)), p.ascends);
      },
    )

  insert_sorted_lem :
      (a : Text) (bs : List Text)
      → Configured config a
      → AllConfigured config bs
      → Ascends config bs
      → (cs' : List Text) × (insert_sorted config a bs ≡ some cs') × Placed a bs cs'
  unfolding contains
  insert_sorted_lem a [] ca cb h = (
    a ∷ [],
    unfold insert_sorted in refl,
    record { holds = λ v. refl; ascends = ((λ v m. ground arith), tt) },
  )
  insert_sorted_lem a (b ∷ bs) ca cb h =
      let here : Configured config b = cb b (ground (arith, beq_refl {A = Text} b)) in
      let (cs', e, p) = insert_sorted_lem a bs ca (λ v m. cb v (ground arith)) h.1 in
      elim (dec_le (priority config a) (priority config b)) [
        | yes le ↦
            let (returns, placed) = insert_before a b bs ca here h le in
            (a ∷ b ∷ bs, returns, placed)
        | no gt ↦
            let (returns, placed) = insert_behind a b bs ca here h (omega arith) cs' e p in
            (b ∷ cs', returns, placed)
      ]

  record Sorted (xs ys : List Text) : Type 0 where
    pub holds : (v : Text) → contains v ys ≡ contains v xs
    pub ascends : Ascends config ys

  sort_by_priority_lem :
      (xs : List Text)
      → AllConfigured config xs
      → (ys : List Text) × (sort_by_priority config xs ≡ some ys) × Sorted xs ys
  unfolding contains sort_by_priority
  sort_by_priority_lem [] c = ([], refl, record { holds = λ v. refl; ascends = tt })
  sort_by_priority_lem (x ∷ xs) c =
      let (ys, e, s) = sort_by_priority_lem xs (λ v m. c v (ground arith)) in
      let here : Configured config x = c x (ground (arith, beq_refl {A = Text} x)) in
      let (zs, e', p) =
        insert_sorted_lem x ys here (λ v m. c v (ground (arith, s.holds v))) s.ascends in
      (
        zs,
        ground arith,
        record { holds = λ v. ground (arith, p.holds v, s.holds v); ascends = p.ascends },
      )

  head-append : (xs ys : List Text) {l : Text} → head? xs ≡ some l → head? (xs ++ ys) ≡ some l
  head-append [] ys h = cc
  head-append (x ∷ xs) ys h = h

  pub record Highest (xs : List Text) (l : Text) : Type 0 where
    pub member : contains l xs ≡ true
    pub highest : (v : Text) → contains v xs ≡ true → priority config v ≤ priority config l

  -- The last of an ascending list.
  head-reverse :
      (y : Text) (ys : List Text)
      → Ascends config (y ∷ ys)
      → (l : Text) × (head? (reverse (y ∷ ys)) ≡ some l) × Highest (y ∷ ys) l
  unfolding contains
  head-reverse y [] h = (
    y,
    refl,
    record {
      member = ground (arith, beq_refl {A = Text} y);
      highest = λ v m. ground (arith, text_beq_iff y v);
    },
  )
  head-reverse y (z ∷ zs) h =
      let (l, e, best) = head-reverse z zs h.1 in
      (
        l,
        rw (reverse-append (y ∷ []) (z ∷ zs)) (head-append (reverse (z ∷ zs)) (y ∷ []) e),
        record {
          member = ground (arith, best.member);
          highest = λ v m. ground (arith, text_beq_iff y v, best.highest v, h.0 l best.member);
        },
      )

  choice_of :
      (x : Text) (xs ys : List Text)
      → Sorted (x ∷ xs) ys
      → (l : Text) × (head? (reverse ys) ≡ some l) × Highest (x ∷ xs) l
  unfolding contains
  choice_of x xs [] s = absurd (ground (arith, s.holds x, beq_refl {A = Text} x))
  choice_of x xs (y ∷ ys) s =
      let (l, e, best) = head-reverse y ys s.ascends in
      (
        l,
        e,
        record {
          member = ground (arith, s.holds l, best.member);
          highest = λ v m. best.highest v (ground (arith, s.holds v));
        },
      )

  -- If all servers are configured, the sort does not panic, and the choice is one of them, of the
  -- highest priority.
  pub first_choice_lem :
      (x : Text) (xs : List Text)
      → AllConfigured config (x ∷ xs)
      → (l : Text) × (first_choice config (x ∷ xs) ≡ some l) × Highest (x ∷ xs) l
  unfolding first_choice
  first_choice_lem x xs c =
      let (ys, e, s) = sort_by_priority_lem (x ∷ xs) c in
      let (l, found, best) = choice_of x xs ys s in (l, ground arith, best)
