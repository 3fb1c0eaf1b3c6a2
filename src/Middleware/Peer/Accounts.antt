-- ===== src/Middleware/Peer/Accounts.antt =====
-- The account of callbacks: how often each was registered, was called and still waits, step by
-- step.
use mathlib.Core.Path.{subst}
use cs.Base.{
  ℕ, ◌+◌, ◌≤◌, ◌<◌, ◌≡◌, refl, Bool, true, false, Option, none, some, List, [], ◌∷◌, ◌++◌, Eq, ◌==◌,
  nat_eq, arith, inl, inr, Bool-cases, Option-cases, length,
}
use cs.Base.HashSet.{IsNodup}
use cs.Base.HashMap
use cs.Base.HashMap.{HashMap}
use cs.Base.Decimal.{usize_mod}
use cs.Discord.{add_usize}
use cs.Middleware.Peer.{
  MessageToSend, PeerState, prepare, give_up_all, drain, on_response, Event, prepared, written,
  response, died,
}

abbrev pub one_if : Bool → ℕ
one_if true = 1
one_if false = 0

module _ {C : Type 0} ⦃e : Eq C⦄ where
  -- How often c waits for a response.
  abbrev pub waits : C → HashMap ℕ C → ℕ
  waits c [] = 0
  waits c ((n, d) ∷ callbacks) = one_if (d == c) + waits c callbacks

  -- How often c was handed over with a message.
  abbrev pub handed : C → Option C → ℕ
  handed c none = 0
  handed c (some d) = one_if (d == c)

  waits-insert :
      (c d : C) (n : ℕ) (callbacks : HashMap ℕ C)
      → HashMap.get n callbacks ≡ none
      → waits c (HashMap.insert n d callbacks) ≡ waits c callbacks + one_if (d == c)
  unfolding HashMap.get HashMap.insert
  waits-insert c d n [] h = omega arith
  waits-insert c d n ((k, x) ∷ callbacks) h = ground (arith, waits-insert c d n callbacks)

  waits-remove-none :
      (c : C) (n : ℕ) (callbacks : HashMap ℕ C)
      → HashMap.get n callbacks ≡ none
      → waits c (HashMap.remove n callbacks) ≡ waits c callbacks
  unfolding HashMap.get HashMap.remove
  waits-remove-none c n [] h = refl
  waits-remove-none c n ((k, x) ∷ callbacks) h = ground (arith, waits-remove-none c n callbacks)

  waits-remove :
      (c d : C) (n : ℕ) (callbacks : HashMap ℕ C)
      → IsNodup (HashMap.keys callbacks)
      → HashMap.get n callbacks ≡ some d
      → waits c (HashMap.remove n callbacks) + one_if (d == c) ≡ waits c callbacks
  unfolding HashMap.get HashMap.remove HashMap.keys HashMap.contains_key
  waits-remove c d n [] once h = cc
  waits-remove c d n ((k, x) ∷ callbacks) once h = ground (
    arith,
    waits-remove c d n callbacks once.1,
    waits-remove-none c n callbacks,
    HashMap.contains-keys {V = C} k callbacks,
  )

module _ (V : Type 0) {C : Type 0} ⦃e : Eq C⦄ where
  -- How often c was called.
  abbrev pub calls : C → List (C × Option V) → ℕ
  calls c [] = 0
  calls c ((d, v) ∷ fired) = one_if (d == c) + calls c fired

  calls-append :
      (c : C) (xs ys : List (C × Option V)) → calls c (xs ++ ys) ≡ calls c xs + calls c ys
  calls-append c [] ys = omega arith
  calls-append c (x ∷ xs) ys = omega (arith, calls-append c xs ys)

  abbrev pub registered : C → List (Event V C) → ℕ
  registered c [] = 0
  registered c (prepared m ∷ trace) = handed c m.callback + registered c trace
  registered c (written ∷ trace) = registered c trace
  registered c (response n v ∷ trace) = registered c trace
  registered c (died ∷ trace) = registered c trace

  calls-give_up_all :
      (c : C) (callbacks : HashMap ℕ C) → calls c (give_up_all V C callbacks) ≡ waits c callbacks
  unfolding give_up_all
  calls-give_up_all c [] = refl
  calls-give_up_all c ((n, d) ∷ callbacks) = omega (arith, calls-give_up_all c callbacks)

  -- The responses carry no callback, as everywhere in the program.
  abbrev pub IsQuiet : List (Event V C) → Type 0
  IsQuiet [] = Unit
  IsQuiet (prepared m ∷ trace) = (m.is_response ≡ true → m.callback ≡ none) × IsQuiet trace
  IsQuiet (written ∷ trace) = IsQuiet trace
  IsQuiet (response n v ∷ trace) = IsQuiet trace
  IsQuiet (died ∷ trace) = IsQuiet trace

  pub record Accounts (trace : List (Event V C)) (p : PeerState V C) : Type 0 where
    pub once : IsNodup (HashMap.keys p.seq_to_callback)
    pub unused : (n : ℕ) → p.sequence_num < n → HashMap.get n p.seq_to_callback ≡ none
    pub few : p.sequence_num ≤ length trace
    pub balance : (c : C) → calls c p.fired + waits c p.seq_to_callback ≡ registered c trace

  module _ (trace : List (Event V C)) (p : PeerState V C) (a : Accounts trace p) where
    pub drain-Accounts : Accounts trace (drain V C p)
    unfolding drain
    drain-Accounts = record {
      once = unfold HashMap.keys in tt;
      unused = λ n h. unfold HashMap.get in refl;
      few = a.few;
      balance = λ c. omega (
        arith,
        a.balance c,
        calls-append c (give_up_all V C p.seq_to_callback) p.fired,
        calls-give_up_all c p.seq_to_callback,
      );
    }

    pub respond-Accounts : (n : ℕ) (v : V) → Accounts trace (on_response V C n v p)
    unfolding on_response
    respond-Accounts n v = elim (Option-cases (HashMap.get n p.seq_to_callback)) [
      | inl nobody ↦ rw (nobody, on_response) a
      | inr (d, found) ↦
          rw (found, on_response)
            (record {
              once = HashMap.keys-remove-IsNodup n p.seq_to_callback a.once;
              unused =
                  λ k h. ground (arith, HashMap.get-remove n k p.seq_to_callback, a.unused k h);
              few = a.few;
              balance = λ c.
                  omega (arith, a.balance c, waits-remove c d n p.seq_to_callback a.once found);
            })
    ]

    -- The next number, while fewer than 2^64 messages were sent.
    next_number : length trace + 1 < usize_mod → add_usize p.sequence_num 1 ≡ p.sequence_num + 1
    next_number short = omega (arith, a.few)

    numbered-Accounts :
        (callbacks : HashMap ℕ C) (m : MessageToSend V C)
        → IsNodup (HashMap.keys callbacks)
        → ((n : ℕ) → p.sequence_num + 1 < n → HashMap.get n callbacks ≡ none)
        → ((c : C) → waits c callbacks ≡ waits c p.seq_to_callback + handed c m.callback)
        → Accounts
            (prepared m ∷ trace)
            (record p { sequence_num = p.sequence_num + 1; seq_to_callback = callbacks })
    numbered-Accounts callbacks m once unused waiting = record {
      once = once;
      unused = unused;
      few = omega (arith, a.few);
      balance = λ c. omega (arith, a.balance c, waiting c);
    }

    response-Accounts :
        (m : MessageToSend V C)
        → m.callback ≡ none
        → Accounts (prepared m ∷ trace) (record p { sequence_num = p.sequence_num })
    response-Accounts m no_callback = record {
      once = a.once;
      unused = a.unused;
      few = omega (arith, a.few);
      balance = λ c. ground (arith, a.balance c);
    }

    pub prepare-Accounts :
        (m : MessageToSend V C)
        → (m.is_response ≡ true → m.callback ≡ none)
        → length trace + 1 < usize_mod
        → Accounts (prepared m ∷ trace) (prepare V C m p).0
    unfolding prepare
    prepare-Accounts m quiet short =
        let number = next_number short in
        elim (Bool-cases m.is_response) [
          | inl answer ↦
              subst (Accounts (prepared m ∷ trace)) {x = p} (ground (arith, quiet answer))
                (response-Accounts m (quiet answer))
          | inr request ↦ elim (Option-cases m.callback) [
            | inl nobody ↦
                subst (Accounts (prepared m ∷ trace))
                  {x = record p {
                    sequence_num = p.sequence_num + 1;
                    seq_to_callback = p.seq_to_callback;
                  }}
                  (ground (arith, number))
                  (numbered-Accounts p.seq_to_callback m a.once (λ n h. a.unused n (omega arith))
                    (λ c. ground arith))
            | inr (d, somebody) ↦
                let callbacks = HashMap.insert (p.sequence_num + 1) d p.seq_to_callback in
                subst (Accounts (prepared m ∷ trace))
                  {x = record p { sequence_num = p.sequence_num + 1; seq_to_callback = callbacks }}
                  (ground (arith, number))
                  (numbered-Accounts callbacks m
                    (HashMap.keys-insert-IsNodup (p.sequence_num + 1) d p.seq_to_callback a.once)
                    (λ n h. ground (
                      arith,
                      HashMap.get-insert (p.sequence_num + 1) n d p.seq_to_callback,
                      a.unused n,
                    ))
                    (λ c. ground (
                      arith,
                      waits-insert c d (p.sequence_num + 1) p.seq_to_callback
                          (a.unused (p.sequence_num + 1) (omega arith)),
                    )))
          ]
        ]

    pub later :
        (e' : Event V C)
        → ((c : C) → registered c (e' ∷ trace) ≡ registered c trace)
        → Accounts (e' ∷ trace) p
    later e' same = record {
      once = a.once;
      unused = a.unused;
      few = omega (arith, a.few);
      balance = λ c. omega (arith, a.balance c, same c);
    }
