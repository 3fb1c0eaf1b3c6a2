-- ===== src/Distributed/Retry.antt =====
-- Forwarding: one attempt, and the rounds of a call.
use cs.Base.{
  ℕ, zero, suc, ◌+◌, ◌<◌, ◌≡◌, ◌≢◌, refl, sym, ap, ◌∙◌, Bool, true, false, Option, none, some, List,
  [], ◌∷◌, ◌==◌, text_eq, text_beq_iff, length, arith, inl, inr, Bool-cases, All, ◌+◌,
}
use cs.Base.Text.{Text}
use cs.Distributed.Owners.{LocationConfig, is_authoritative, forward_location}
use cs.Distributed.Wire.{Platform}
use cs.Distributed.Run.{
  Request, Reply, World, Result, returned, panicked, waiting, M, ◌>>=◌, pure, unwrap, then_run,
  end_wait, await_answer,
}
use cs.Distributed.Forward.{
  forward_request_to, forward_request, take_answer, attempt_at, attempt, or_else, retry,
  operation_at,
}

-- A server that does not answer itself is neither the primary nor the one it forwards to.
pub never_itself :
    (l : LocationConfig) (id : Text) (is_alive : Text → Bool)
    → is_authoritative id is_alive l ≡ false
    → ((id == l.primary) ≡ false) × ((id == forward_location is_alive l) ≡ false)
unfolding is_authoritative forward_location
never_itself l id is_alive h = (
  ground (arith, text_beq_iff l.primary id, text_beq_iff id l.primary),
  ground (arith, text_beq_iff l.primary id, text_beq_iff id l.primary, text_beq_iff id l.backup),
)

module _ (p : Platform) (id : Text) {A : Type 0} where
  -- An attempt that fails has taken an answer.
  pub Consumes : M p.json.Value (Option A) → Type 0
  Consumes m =
      (w w' : World p.json.Value) → m w ≡ returned w' none → length w'.replies < length w.replies

  or_else-cong :
      (m n : M p.json.Value A) (r : Result p.json.Value (Option A))
      → ((w : World p.json.Value) → r ≡ returned w none → m w ≡ n w)
      → then_run (or_else p id m) r ≡ then_run (or_else p id n) r
  or_else-cong m n (returned w none) h = h w refl
  or_else-cong m n (returned w (some a)) h = refl
  or_else-cong m n panicked h = refl
  or_else-cong m n (waiting w) h = refl

  -- More rounds than there are answers to come change nothing.
  pub retry_enough :
      (m : M p.json.Value (Option A))
      → Consumes m
      → (f g : ℕ) (w : World p.json.Value) → length w.replies < f
      → length w.replies < g
      → retry p id f m w ≡ retry p id g m w
  unfolding retry Consumes
  retry_enough m c (suc f) (suc g) w hf hg =
      or_else-cong (retry p id f m) (retry p id g m) (m w)
        λ w' e. let less = c w w' e in retry_enough m c f g w' (omega arith) (omega arith)
  retry_enough m c zero g w hf hg = ground arith
  retry_enough m c (suc f) zero w hf hg = ground arith

  some_only :
      (r : Result p.json.Value A) (w : World p.json.Value)
      → then_run (λ a. pure (some a)) r ≢ returned w none
  some_only (returned w' a) w e = cc
  some_only panicked w e = cc
  some_only (waiting w') w e = cc

module _ (p : Platform) (id : Text) {A : Type 0} (l : LocationConfig) (here : M p.json.Value A)
    (message : p.json.Value) (kind : Text) (decode : p.json.Value → Option A) where
  abbrev request_at : World p.json.Value → Request p.json.Value
  request_at w = record {
    to = forward_location w.server.is_alive l;
    kind = kind;
    message = message;
  }

  -- An attempt elsewhere is one request and one wait.
  pub attempt_elsewhere :
      (w : World p.json.Value)
      → is_authoritative id w.server.is_alive l ≡ false
      → attempt p id l here message kind decode w
        ≡ (await_answer (request_at w) >>= take_answer p id decode) w
  unfolding attempt attempt_at forward_request forward_request_to
  attempt_elsewhere w h =
      let (not_primary, not_target) = never_itself l id w.server.is_alive h in
      rw (h, not_primary, not_target)

  pub attempt_here :
      (w : World p.json.Value)
      → is_authoritative id w.server.is_alive l ≡ true
      → attempt p id l here message kind decode w ≡ (here >>= λ a. pure (some a)) w
  unfolding attempt attempt_at
  attempt_here w h = rw h

  taken_answer :
      (o : Option p.json.Value) (w w' : World p.json.Value)
      → take_answer p id decode o w ≡ returned w' none
      → w ≡ w'
  unfolding take_answer
  taken_answer none w w' e = cc
  taken_answer (some v) w w' e = elim (some_only p id (unwrap (decode v) w) w' e) [ ]

  taken :
      (w w' : World p.json.Value) (rs : List (Reply p.json.Value))
      → then_run (take_answer p id decode) (end_wait w (request_at w) rs) ≡ returned w' none
      → length w'.replies < length rs
  unfolding take_answer
  taken w w' [] e = cc
  taken w w' (r ∷ rs) e =
      let same = ap (λ x. x.replies) (taken_answer r.answer _ w' e) in rw (sym same) (omega arith)

  -- The attempts of an operation consume.
  attempt-Consumes : Consumes p id (attempt p id l here message kind decode)
  unfolding Consumes await_answer
  attempt-Consumes w w' e = elim (Bool-cases (is_authoritative id w.server.is_alive l)) [
    | inl h ↦ elim (some_only p id (here w) w' (sym (attempt_here w h) ∙ e)) [ ]
    | inr h ↦ taken w w' w.replies (sym (attempt_elsewhere w h) ∙ e)
  ]

  -- The rounds of the model are the source's calls of itself: an operation is one attempt and, when
  -- the peer went down, the operation again in the state that the wait left.
  pub operation_at_lem :
      (w : World p.json.Value)
      → operation_at p id l here message kind decode w
        ≡ (attempt p id l here message kind decode
              >>= or_else p id (operation_at p id l here message kind decode))
            w
  unfolding operation_at retry Consumes
  operation_at_lem w = or_else-cong p id _ _ _ λ w' e.
      let less = attempt-Consumes w w' e in
      retry_enough p id _ attempt-Consumes (length w.replies) (suc (length w'.replies)) w'
        (omega arith) (omega arith)

  -- An operation that belongs elsewhere and is answered is one request, to the server that is in
  -- charge as far as this one knows, and its answer.
  pub operation_at-forwarded :
      (w : World p.json.Value) (r : Reply p.json.Value) (rs : List (Reply p.json.Value))
      (v : p.json.Value) (a : A)
      → is_authoritative id w.server.is_alive l ≡ false
      → w.replies ≡ r ∷ rs
      → r.answer ≡ some v
      → decode v ≡ some a
      → operation_at p id l here message kind decode w
        ≡ returned (record { server = r.server; replies = rs; sent = request_at w ∷ w.sent }) a
  unfolding await_answer take_answer
  operation_at-forwarded w r rs v a elsewhere replies answer decoded =
      operation_at_lem w ∙ rw (attempt_elsewhere w elsewhere, replies) (rw answer (rw decoded refl))

  pub neither :
      (id == l.primary) ≡ false
      → (id == l.backup) ≡ false
      → (w : World p.json.Value) → is_authoritative id w.server.is_alive l ≡ false
  unfolding is_authoritative
  neither not_primary not_backup w =
      ground (arith, text_beq_iff l.primary id, text_beq_iff id l.primary)

  rounds :
      ((w : World p.json.Value) → is_authoritative id w.server.is_alive l ≡ false)
      → (w : World p.json.Value) (rs : List (Reply p.json.Value)) → w.replies ≡ rs
      → All (λ r. r.answer ≡ none) rs
      → (w' : World p.json.Value) × (operation_at p id l here message kind decode w ≡ waiting w')
        × (length w'.sent ≡ suc (length rs + length w.sent))
  unfolding await_answer take_answer
  rounds elsewhere w [] e dead = (
    record w { sent = request_at w ∷ w.sent },
    operation_at_lem w ∙ rw (attempt_elsewhere w (elsewhere w), e) refl,
    omega arith,
  )
  rounds elsewhere w (r ∷ rs) e (none_here, dead) =
      let next : World p.json.Value = record {
        server = r.server;
        replies = rs;
        sent = request_at w ∷ w.sent;
      } in
      let (w', result, count) = rounds elsewhere next rs refl dead in
      (
        w',
        operation_at_lem w ∙ rw (attempt_elsewhere w (elsewhere w), e) (rw none_here result),
        rw count (omega arith),
      )

  -- Let a server that is neither the primary nor the backup get no answer to any request, however
  -- many replies are to come. The operation does not return: it has sent one request more than
  -- there were replies, and waits.
  pub operation_at-waiting :
      (w : World p.json.Value)
      → (id == l.primary) ≡ false
      → (id == l.backup) ≡ false
      → All (λ r. r.answer ≡ none) w.replies
      → (w' : World p.json.Value) × (operation_at p id l here message kind decode w ≡ waiting w')
        × (length w'.sent ≡ suc (length w.replies + length w.sent))
  operation_at-waiting w not_primary not_backup dead =
      rounds (neither not_primary not_backup) w w.replies refl dead
