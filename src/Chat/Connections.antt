-- ===== src/Chat/Connections.antt =====
-- What a command leaves, whatever the line: the login of a connection, and the lines that panic.
use mathlib.Core.Path.{subst}
use cs.Base.{
  String, ◌≡◌, refl, Bool, true, not, Option, none, some, arith, if◌then◌else◌, text_eq, inl, inr,
  Bool-cases, sym,
}
use cs.Base.HashMap
use cs.Base.Text.{Text, has_char, split_once-has_char}
use cs.Chat.Types.{AppState, StateResult, ok, err, Outcome}
use cs.Chat.Operations.{
  create_user, user_exists, join_channel, leave_channel, list_channel_users, send_message,
  channel_name_is_valid, channel_exists, invalid_channel_name, unknown_channel,
}
use cs.Chat.Index.{members, IsIndexed}
use cs.Chat.Users.{create_user_lem}
use cs.Chat.Changes.{is_ok, join_channel_both_views, leave_channel_both_views, Moves}
use cs.Chat.History.{Sent-IsIndexed, send_message_numbered, get_messages_lem}
use cs.Chat.Commands.{
  Connection, Reply, Handled, reply_with, reply_read, or_refuse, unwrap, login_as, log_in,
  handle_register, handle_login, handle_logout, handle_join, handle_leave, handle_list_channels,
  handle_list_users, handle_send, handle_history,
}

-- The shared state is well-formed, and the user of the connection exists.
pub record IsConnection (k : Connection) : Type 0 where
  pub indexed : IsIndexed k.shared
  pub known : (u : Text) → k.user ≡ some u → user_exists k.shared u ≡ true

-- The command returns, and the connection is well-formed afterwards.
abbrev pub Answers : Handled → Type 0
Answers h = (o : Connection × StateResult Reply) × (h ≡ some o) × IsConnection o.0

answer : (k : Connection) (r : StateResult Reply) → IsConnection k → Answers (some (k, r))
answer k r h = ((k, r), refl, h)

-- An operation returns a well-formed state that has all users.
abbrev Keeps : {A : Type 0} → AppState → Outcome A → Type 0
Keeps {A} s o =
    (p : AppState × StateResult A) × (o ≡ some p)
    × IsIndexed p.0
    × ((u : Text) → user_exists s u ≡ true → user_exists p.0 u ≡ true)

module _ (k : Connection) (h : IsConnection k) where
  shared_with :
      (s : AppState)
      → IsIndexed s
      → ((u : Text) → user_exists k.shared u ≡ true → user_exists s u ≡ true)
      → IsConnection (record k { shared = s })
  shared_with s i stay = record { indexed = i; known = λ u e. stay u (h.known u e) }

  reply_with_lem :
      {A : Type 0} (f : A → Reply) (o : Outcome A) → Keeps k.shared o → Answers (reply_with k f o)
  unfolding reply_with
  reply_with_lem f o ((s, ok a), e, i, stay) =
      subst (λ x. Answers (reply_with k f x)) (sym e) (answer _ _ (shared_with s i stay))
  reply_with_lem f o ((s, err x), e, i, stay) =
      subst (λ x. Answers (reply_with k f x)) (sym e) (answer _ _ (shared_with s i stay))

  reply_read_lem :
      {A : Type 0} (f : A → Reply) (o : Option (StateResult A)) {r : StateResult A}
      → o ≡ some r
      → Answers (reply_read k f o)
  unfolding reply_read
  reply_read_lem f o {r = ok a} e = subst (λ x. Answers (reply_read k f x)) (sym e) (answer _ _ h)
  reply_read_lem f o {r = err x} e = subst (λ x. Answers (reply_read k f x)) (sym e) (answer _ _ h)

  or_refuse_lem :
      {A : Type 0} (o : Option A) (message : String) (f : A → Handled)
      → ((a : A) → o ≡ some a → Answers (f a))
      → Answers (or_refuse k o message f)
  unfolding or_refuse
  or_refuse_lem none message f each = answer _ _ h
  or_refuse_lem (some a) message f each = each a refl

unwrap_lem :
    {A : Type 0} (o : Option A) (f : A → Handled) {a : A}
    → o ≡ some a
    → ((b : A) → Answers (f b))
    → Answers (unwrap o f)
unfolding unwrap
unwrap_lem none f e each = cc
unwrap_lem (some b) f e each = each b

pub list_channel_users_returns :
    (s : AppState) (c : Text)
    → list_channel_users s c
      ≡ some (
          if not (channel_name_is_valid c)
          then err invalid_channel_name
          else if not (channel_exists s c)
          then err unknown_channel
          else ok (members s c))
unfolding list_channel_users members channel_exists HashMap.contains_key
list_channel_users_returns s c = ground arith

Moves-Keeps :
    {u c : Text} {b : Bool} (s : AppState) (o : AppState × StateResult (Unit {0}))
    → Moves u c b s o.0 o.1
    → (v : Text) → user_exists s v ≡ true
    → user_exists o.0 v ≡ true
Moves-Keeps s o m v h = elim (Bool-cases (is_ok o.1)) [
  | inl good ↦ ground (arith, (m.success good).users v)
  | inr bad ↦ subst (λ t. user_exists t v ≡ true) (sym (m.failure bad)) h
]

create_user-Keeps : (s : AppState) (u : Text) → IsIndexed s → Keeps s (some (create_user s u))
create_user-Keeps s u h =
    let (result, exist, members, log, counter, i) = create_user_lem s u h in
    (create_user s u, refl, i, λ v e. ground (arith, exist v))

join_channel-Keeps : (s : AppState) (u c : Text) → IsIndexed s → Keeps s (join_channel s u c)
join_channel-Keeps s u c h =
    let (o, e, result, moves, i) = join_channel_both_views s u c h in
    (o, e, i, Moves-Keeps s o moves)

leave_channel-Keeps : (s : AppState) (u c : Text) → IsIndexed s → Keeps s (leave_channel s u c)
leave_channel-Keeps s u c h =
    let (o, e, result, moves, i) = leave_channel_both_views s u c h in
    (o, e, i, Moves-Keeps s o moves)

send_message-Keeps :
    (s : AppState) (c u text : Text) → IsIndexed s → Keeps s (send_message s c u text)
send_message-Keeps s c u text h =
    let (o, e, m) = send_message_numbered s c u text in
    elim (Bool-cases (is_ok o.1)) [
      | inl good ↦
          let t = m.success good in
          (
            o,
            e,
            Sent-IsIndexed t h,
            λ v p. unfold user_exists in rw t.users (unfold user_exists in p),
          )
      | inr bad ↦
          let same = sym (m.failure bad) in
          (o, e, subst IsIndexed same h, λ v p. subst (λ t. user_exists t v ≡ true) same p)
    ]

module _ (k : Connection) (h : IsConnection k) (line : Text) where
  pub register_lem : Answers (handle_register k line)
  unfolding handle_register
  register_lem =
      or_refuse_lem k h _ _ _ λ u e. reply_with_lem k h _ _ (create_user-Keeps k.shared u h.indexed)

  pub login_as_lem : (u : Text) → Answers (login_as k u)
  login_as_lem u = elim (Bool-cases (user_exists k.shared u)) [
    | inr unknown ↦ rw unknown (answer _ _ h)
    | inl there ↦
        rw there (answer _ _ (record { indexed = h.indexed; known = λ v e. ground arith }))
  ]

  pub log_in_lem : (user : Option Text) → Answers (log_in k line user)
  unfolding log_in
  log_in_lem (some u) = answer _ _ h
  log_in_lem none = or_refuse_lem k h _ _ _ λ u e. login_as_lem u

  pub login_lem : Answers (handle_login k line)
  unfolding handle_login
  login_lem = log_in_lem k.user

  pub logout_lem : Answers (handle_logout k line)
  unfolding handle_logout
  logout_lem = or_refuse_lem k h _ _ _ λ one e.
      or_refuse_lem k h _ _ _
        λ u e'. answer _ _ (record { indexed = h.indexed; known = λ v lost. cc })

  pub join_lem : Answers (handle_join k line)
  unfolding handle_join
  join_lem = or_refuse_lem k h _ _ _ λ c e.
      or_refuse_lem k h _ _ _
        λ u e'. reply_with_lem k h _ _ (join_channel-Keeps k.shared u c h.indexed)

  pub leave_lem : Answers (handle_leave k line)
  unfolding handle_leave
  leave_lem = or_refuse_lem k h _ _ _ λ c e.
      or_refuse_lem k h _ _ _
        λ u e'. reply_with_lem k h _ _ (leave_channel-Keeps k.shared u c h.indexed)

  pub list_channels_lem : Answers (handle_list_channels k line)
  unfolding handle_list_channels
  list_channels_lem = or_refuse_lem k h _ _ _ λ c e. answer _ _ h

  pub list_users_lem : Answers (handle_list_users k line)
  unfolding handle_list_users
  list_users_lem =
      or_refuse_lem k h _ _ _ λ c e. reply_read_lem k h _ _ (list_channel_users_returns k.shared c)

  pub send_lem : has_char b' ' line ≡ true → Answers (handle_send k line)
  unfolding handle_send
  send_lem space = unwrap_lem _ _ (split_once-has_char b' ' line space).1 λ (_, parts).
      or_refuse_lem k h _ _ _ λ (c, text) e.
        or_refuse_lem k h _ _ _
          λ u e'. reply_with_lem k h _ _ (send_message-Keeps k.shared c u text h.indexed)

  pub history_lem : has_char b' ' line ≡ true → Answers (handle_history k line)
  unfolding handle_history
  history_lem space = unwrap_lem _ _ (split_once-has_char b' ' line space).1 λ (_, parts).
      or_refuse_lem k h _ _ _
        λ (c, limit) e. reply_read_lem k h _ _ (get_messages_lem k.shared c limit none)
