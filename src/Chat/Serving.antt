-- ===== src/Chat/Serving.antt =====
-- What an endpoint leaves behind, whatever the request.
use mathlib.Core.Path.{subst}
use cs.Base.{
  ℕ, String, ◌≡◌, ◌⊎◌, refl, sym, false, Option, none, some, [], ◌∷◌, arith, text_eq, inl, inr,
  Bool-cases, Option-cases,
}
use cs.Base.HashMap
use cs.Base.Http.{Header, absent, unreadable, header}
use cs.Base.Text.{Text, lit}
use cs.Base.Decimal.{parse_usize}
use cs.Chat.Types.{AppState, StateResult, ok, err, Outcome}
use cs.Chat.Operations
use cs.Chat.Index.{IsIndexed}
use cs.Chat.Users.{create_user_lem}
use cs.Chat.Changes.{is_ok, join_channel_both_views, leave_channel_both_views}
use cs.Chat.History.{Sent-IsIndexed, send_message_numbered, get_messages_lem}
use cs.Chat.Connections.{list_channel_users_returns}
use cs.Chat.Endpoints.{
  Content, messages, Handled, Response, Request, health, post_user, get_users, get_channels,
  join_channel, list_channel_users, leave_channel, send_message, get_messages, not_found,
  method_not_allowed, respond, respond_read, with_user, with_body, with_number, serve,
}

-- The request is answered, the state is well-formed afterwards, and the status is 200 or the state is
-- the old one.
abbrev pub Answers : AppState → Handled → Type 0
Answers s h =
    (o : AppState × Response) × (h ≡ some o) × IsIndexed o.0 × ((o.1.status ≡ 200) ⊎ (o.0 ≡ s))

-- The same of an operation.
abbrev Keeps : {A : Type 0} → AppState → Outcome A → Type 0
Keeps {A} s o =
    (p : AppState × StateResult A) × (o ≡ some p) × IsIndexed p.0 × (is_ok p.1 ≡ false → p.0 ≡ s)

module _ (s : AppState) (h : IsIndexed s) where
  unchanged : (r : Response) → Answers s (some (s, r))
  unchanged r = ((s, r), refl, h, inr refl)

  respond_lem : {A : Type 0} (f : A → Content) (o : Outcome A) → Keeps s o → Answers s (respond f o)
  unfolding respond
  respond_lem f o ((s', ok a), e, i, same) =
      subst (λ x. Answers s (respond f x)) (sym e) (_, refl, i, inl refl)
  respond_lem f o ((s', err x), e, i, same) =
      subst (λ x. Answers s (respond f x)) (sym e) (_, refl, i, inr (same refl))

  respond_read_lem :
      {A : Type 0} (f : A → Content) (o : Option (StateResult A)) {r : StateResult A}
      → o ≡ some r
      → Answers s (respond_read s f o)
  unfolding respond_read
  respond_read_lem f o {r = ok a} e =
      subst (λ x. Answers s (respond_read s f x)) (sym e) (unchanged _)
  respond_read_lem f o {r = err x} e =
      subst (λ x. Answers s (respond_read s f x)) (sym e) (unchanged _)

  with_user_lem :
      (user : Header) (f : Text → Handled)
      → ((u : Text) → Answers s (f u))
      → Answers s (with_user s user f)
  unfolding with_user
  with_user_lem absent f each = unchanged _
  with_user_lem unreadable f each = unchanged _
  with_user_lem (header u) f each = each u

  with_body_lem :
      (body : Option Text) (message : String) (f : Text → Handled)
      → ((t : Text) → Answers s (f t))
      → Answers s (with_body s body message f)
  unfolding with_body
  with_body_lem none message f each = unchanged _
  with_body_lem (some t) message f each = each t

  with_number_lem :
      (number : Option Text) (message : String) (f : Option ℕ → Handled)
      → ((n : Option ℕ) → Answers s (f n))
      → Answers s (with_number s number message f)
  unfolding with_number
  with_number_lem none message f each = each none
  with_number_lem (some []) message f each = each none
  with_number_lem (some (c ∷ t)) message f each = elim (Option-cases (parse_usize (c ∷ t))) [
    | inl e ↦ rw (e, with_number) (unchanged _)
    | inr (n, e) ↦ rw (e, with_number) (each (some n))
  ]

  create_user-Keeps : (u : Text) → Keeps s (some (Operations.create_user s u))
  unfolding Operations.create_user
  create_user-Keeps u =
      let (result, exist, members, log, counter, i) = create_user_lem s u h in
      (_, refl, i, λ bad. ground arith)

  join_channel-Keeps : (u c : Text) → Keeps s (Operations.join_channel s u c)
  join_channel-Keeps u c =
      let (o, e, result, moves, i) = join_channel_both_views s u c h in (o, e, i, moves.failure)

  leave_channel-Keeps : (u c : Text) → Keeps s (Operations.leave_channel s u c)
  leave_channel-Keeps u c =
      let (o, e, result, moves, i) = leave_channel_both_views s u c h in (o, e, i, moves.failure)

  send_message-Keeps : (c u text : Text) → Keeps s (Operations.send_message s c u text)
  send_message-Keeps c u text =
      let (o, e, sends) = send_message_numbered s c u text in
      let indexed : IsIndexed o.0 = elim (Bool-cases (is_ok o.1)) [
        | inl good ↦ Sent-IsIndexed (sends.success good) h
        | inr bad ↦ subst IsIndexed (sym (sends.failure bad)) h
      ] in
      (o, e, indexed, sends.failure)

-- On a well-formed state every endpoint answers, without a panic, and leaves a well-formed state;
-- and its status is 200 or the state is as it was.
pub serve_lem : (q : Request) (s : AppState) → IsIndexed s → Answers s (serve q s)
unfolding serve
serve_lem health s h = unchanged s h _
serve_lem (post_user body) s h =
    with_body_lem s h body _ _ λ u. respond_lem s h _ _ (create_user-Keeps s h u)
serve_lem get_users s h = unchanged s h _
serve_lem get_channels s h = unchanged s h _
serve_lem (join_channel user c) s h =
    with_user_lem s h user _ λ u. respond_lem s h _ _ (join_channel-Keeps s h u c)
serve_lem (list_channel_users c) s h = respond_read_lem s h _ _ (list_channel_users_returns s c)
serve_lem (leave_channel c u) s h = respond_lem s h _ _ (leave_channel-Keeps s h u c)
serve_lem (send_message user c body) s h =
    with_user_lem s h user _
      λ u. with_body_lem s h body _ _ λ t. respond_lem s h _ _ (send_message-Keeps s h c u t)
serve_lem (get_messages c params) s h =
    with_number_lem s h (HashMap.get (lit "limit") params)
      "Invalid limit! Limit must be a nonnegative integer" _
      λ limit.
        with_number_lem s h (HashMap.get (lit "offset") params)
          "Invalid offset! Offset must be a nonnegative integer" _
          λ offset. respond_read_lem s h (messages c) _ (get_messages_lem s c limit offset)
serve_lem not_found s h = unchanged s h _
serve_lem method_not_allowed s h = unchanged s h _
