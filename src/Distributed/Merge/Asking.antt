-- ===== src/Distributed/Merge/Asking.antt =====
-- The loop over the peers: whom it asks, and what it collects when they answer or go down.
use cs.Base.{
  ℕ, ◌≡◌, refl, sym, ap, ◌∙◌, Bool, true, false, Option, none, some, List, [], ◌∷◌, ◌++◌, map,
  if◌then◌else◌, ◌==◌, text_eq, text_beq_iff, length, arith, Bool-cases, inl, inr,
}
use mathlib.Core.List.{append-nil, append_assoc}
use cs.Base.Text.{Text}
use cs.Base.Order.{insert_text, sort}
use cs.Discord.{ok}
use cs.Distributed.Wire.{
  Platform, state_result_to_value, state_result_from_value-to_value, as_response,
}
use cs.Distributed.Run.{Server, Request, Reply, World, returned, await_answer}
use cs.Distributed.Forward.{forward_request_to}
use cs.Distributed.Merge.{
  insert_state, sort_states, get_server_states, names_of_answer, is_asked, ask, collect,
}

module _ (p : Platform) (id : Text) where
  -- What the peers that are asked will answer: names, or nothing.
  pub record Heard : Type 0 where
    pub server : Server
    pub number : ℕ
    pub names : Option (List Text)

  abbrev answer_of : Text → ℕ → Option (List Text) → Option p.json.Value
  answer_of kind n none = none
  answer_of kind n (some names) =
      some (as_response p n kind (state_result_to_value p p.texts (ok names)))

  abbrev pub reply_of : Text → Heard → Reply p.json.Value
  reply_of kind h = record { server = h.server; answer = answer_of kind h.number h.names }

  abbrev pub or_nothing : Option (List Text) → List Text
  or_nothing none = []
  or_nothing (some names) = names

  abbrev pub all_heard : List Heard → List Text
  all_heard [] = []
  all_heard (h ∷ hs) = or_nothing h.names ++ all_heard hs

  -- The servers to ask, in the order given: those that are held to be alive, but for this one.
  abbrev pub others : (Text → Bool) → List Text → List Text
  others is_alive [] = []
  others is_alive (x ∷ xs) =
      let rest = others is_alive xs in
      if is_alive x then (if x == id then rest else x ∷ rest) else rest

  -- One request without parameters to each, the latest first.
  abbrev pub requested :
      Text → List Text → List (Request p.json.Value) → List (Request p.json.Value)
  requested kind [] sent = sent
  requested kind (x ∷ xs) sent =
      requested kind xs
        (record { to = x; kind = kind; message = p.json.object p.json.empty } ∷ sent)

  -- The server as it is after the last answer.
  abbrev pub server_after : Server → List Heard → Server
  server_after s [] = s
  server_after s (h ∷ hs) = server_after h.server hs

  others-asked :
      (is_alive : Text → Bool) (x : Text) (xs : List Text)
      → is_asked p id (x, is_alive x) ≡ true
      → others is_alive (x ∷ xs) ≡ x ∷ others is_alive xs
  others-asked is_alive x xs h = ground arith

  others-skipped :
      (is_alive : Text → Bool) (x : Text) (xs : List Text)
      → is_asked p id (x, is_alive x) ≡ false
      → others is_alive (x ∷ xs) ≡ others is_alive xs
  others-skipped is_alive x xs h = ground arith

  names_of_answer_lem :
      (kind : Text) (n : ℕ) (o : Option (List Text)) (w : World p.json.Value)
      → names_of_answer p id (answer_of kind n o) w ≡ returned w (or_nothing o)
  unfolding names_of_answer
  names_of_answer_lem kind n none w = refl
  names_of_answer_lem kind n (some names) w =
      rw (state_result_from_value-to_value p p.texts (ok names) n kind tt) refl

  ask_lem :
      (kind : Text) (peer : Text × Bool) (h : Heard) (rest : List (Reply p.json.Value))
      (w : World p.json.Value)
      → is_asked p id peer ≡ true
      → w.replies ≡ reply_of kind h ∷ rest
      → ask p id kind peer w
        ≡ returned
            (record {
              server = h.server;
              replies = rest;
              sent =
                  record { to = peer.0; kind = kind; message = p.json.object p.json.empty }
                  ∷ w.sent;
            })
            (or_nothing h.names)
  unfolding ask forward_request_to await_answer
  ask_lem kind peer h rest w asked replies =
      let other : (id == peer.0) ≡ false =
        ground (arith, text_beq_iff id peer.0, text_beq_iff peer.0 id) in
      rw (asked, other, replies) (names_of_answer_lem kind h.number h.names _)

  skip_lem :
      (kind : Text) (peer : Text × Bool) (peers : List (Text × Bool)) (names : List Text)
      (w : World p.json.Value)
      → is_asked p id peer ≡ false
      → collect p id kind (peer ∷ peers) names w ≡ collect p id kind peers (names ++ []) w
  unfolding collect ask
  skip_lem kind peer peers names w skipped = rw skipped refl

  no_more :
      (xs ys : List Text) (w : World p.json.Value)
      → returned w ((xs ++ []) ++ ys) ≡ returned w (xs ++ ys)
  no_more xs ys w = ap (λ zs. returned w (zs ++ ys)) (append-nil xs)

  pub collect_lem :
      (kind : Text) (is_alive : Text → Bool) (xs names : List Text) (heard : List Heard)
      (later : List (Reply p.json.Value)) (w : World p.json.Value)
      → w.replies ≡ map (reply_of kind) heard ++ later
      → length heard ≡ length (others is_alive xs)
      → collect p id kind (map (λ x. (x, is_alive x)) xs) names w
        ≡ returned
            (record {
              server = server_after w.server heard;
              replies = later;
              sent = requested kind (others is_alive xs) w.sent;
            })
            (names ++ all_heard heard)
  unfolding collect ask
  collect_lem kind is_alive [] names [] later w replies count =
      rw (sym replies) (ap (returned w) (sym (append-nil names)))
  collect_lem kind is_alive [] names (h ∷ hs) later w replies count = ground arith
  collect_lem kind is_alive (x ∷ xs) names [] later w replies count =
      elim (Bool-cases (is_asked p id (x, is_alive x))) [
        | inr skipped ↦
            let none_asked = others-skipped is_alive x xs skipped in
            skip_lem kind (x, is_alive x) (map (λ y. (y, is_alive y)) xs) names w skipped
            ∙ collect_lem kind is_alive xs (names ++ []) [] later w replies
                (count ∙ ap length none_asked)
            ∙ rw none_asked (no_more names [] _)
        | inl asked ↦ ground (arith, others-asked is_alive x xs asked)
      ]
  collect_lem kind is_alive (x ∷ xs) names (h ∷ hs) later w replies count =
      elim (Bool-cases (is_asked p id (x, is_alive x))) [
        | inr skipped ↦
            let none_asked = others-skipped is_alive x xs skipped in
            skip_lem kind (x, is_alive x) (map (λ y. (y, is_alive y)) xs) names w skipped
            ∙ collect_lem kind is_alive xs (names ++ []) (h ∷ hs) later w replies
                (count ∙ ap length none_asked)
            ∙ rw none_asked (no_more names (all_heard (h ∷ hs)) _)
        | inl asked ↦
            let after : World p.json.Value = record {
              server = h.server;
              replies = map (reply_of kind) hs ++ later;
              sent = record { to = x; kind = kind; message = p.json.object p.json.empty } ∷ w.sent;
            } in
            let one_asked = others-asked is_alive x xs asked in
            rw (ask_lem kind (x, is_alive x) h (map (reply_of kind) hs ++ later) w asked replies) (
              collect_lem kind is_alive xs (names ++ or_nothing h.names) hs later after refl
                (ground (arith, one_asked))
              ∙ rw (one_asked, append_assoc names (or_nothing h.names) (all_heard hs)) refl)
      ]

-- Sorting the pairs is sorting the names.
insert_state-map :
    (f : Text → Bool) (x : Text) (xs : List Text)
    → insert_state (x, f x) (map (λ y. (y, f y)) xs) ≡ map (λ y. (y, f y)) (insert_text x xs)
unfolding insert_state insert_text
insert_state-map f x [] = refl
insert_state-map f x (y ∷ ys) =
    let same : (y == x) ≡ true → f y ≡ f x = λ e. ap f ((text_beq_iff y x).0 e) in
    ground (arith, insert_state-map f x ys, same)

pub get_server_states_lem :
    (servers : List Text) (s : Server)
    → get_server_states servers s ≡ map (λ x. (x, s.is_alive x)) (sort servers)
unfolding get_server_states sort_states sort
get_server_states_lem [] s = refl
get_server_states_lem (x ∷ xs) s =
    ap (insert_state (x, s.is_alive x)) (get_server_states_lem xs s)
    ∙ insert_state-map s.is_alive x (sort xs)
