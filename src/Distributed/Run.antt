-- ===== src/Distributed/Run.antt =====
-- One call at one server, with what the others do while it waits: a state monad whose steps may
-- panic or wait for an answer that has not come.
use cs.Base.{Bool, Option, none, some, List, [], ◌∷◌, text_eq}
use cs.Base.Text.{Text}
use cs.Discord.{AppState, StateResult, Async, done, await_user_exists}

-- What other tasks change while a call waits: the server's users and channels, and which servers it
-- holds to be alive.
pub record Server : Type 0 where
  pub discord : AppState
  pub is_alive : Text → Bool

module _ (V : Type 0) where
  -- A request: to which server, of which kind, with which parameters.
  pub record Request : Type 0 where
    pub to : Text
    pub kind : Text
    pub message : V

  -- The end of a wait: the state that the server has then, and the answer, if the peer gave one.
  pub record Reply : Type 0 where
    pub server : Server
    pub answer : Option V

  -- `replies` are the ends of the waits to come; `sent` lists the requests, the latest first.
  pub record World : Type 0 where
    pub server : Server
    pub replies : List Reply
    pub sent : List Request

  pub data Result (A : Type 0) : Type 0 where
    returned : World → A → Result A
    panicked : Result A
    -- the call waits for an answer that has not come
    waiting : World → Result A

  abbrev pub M : Type 0 → Type 0
  M A = World → Result A

module _ {V : Type 0} where
  abbrev pub then_run : {A B : Type 0} → (A → M V B) → Result V A → Result V B
  then_run f (returned w a) = f a w
  then_run f panicked = panicked
  then_run f (waiting w) = waiting w

  infixl 5 ◌>>=◌
  abbrev pub ◌>>=◌ : {A B : Type 0} → M V A → (A → M V B) → M V B
  ◌>>=◌ m f w = then_run f (m w)

  abbrev pub pure : {A : Type 0} → A → M V A
  pure a w = returned w a

  -- `unwrap`
  abbrev pub unwrap : {A : Type 0} → Option A → M V A
  unwrap none w = panicked
  unwrap (some a) w = returned w a

  abbrev pub view : {A : Type 0} → (Server → A) → M V A
  view f w = returned w (f w.server)

  abbrev pub with_discord : World V → AppState → World V
  with_discord w s = record w { server = record w.server { discord = s } }

  -- A handler of this server that does not wait.
  abbrev pub on_discord : {A : Type 0} → (AppState → AppState × A) → M V A
  on_discord f w = let (s, a) = f w.server.discord in returned (with_discord w s) a

  abbrev pub put_outcome : {A : Type 0} → World V → Option (AppState × A) → Result V A
  put_outcome w none = panicked
  put_outcome w (some (s, a)) = returned (with_discord w s) a

  -- One that may panic.
  abbrev pub on_discord? : {A : Type 0} → (AppState → Option (AppState × A)) → M V A
  on_discord? f w = put_outcome w (f w.server.discord)

  -- A read that may panic.
  abbrev pub read_discord? : {A : Type 0} → (AppState → Option A) → M V A
  read_discord? f w = unwrap (f w.server.discord) w

  -- A handler that waits at most once, for its `user_exists` argument.
  abbrev pub run_async : {A : Type 0} → Async A → (Text → M V Bool) → M V (StateResult A)
  run_async (done r) user_exists = pure r
  run_async (await_user_exists u k) user_exists = user_exists u >>= λ known. on_discord? (k known)

  -- The wait for the answer to a request.
  abbrev pub end_wait : World V → Request V → List (Reply V) → Result V (Option V)
  end_wait w q [] = waiting (record w { sent = q ∷ w.sent })
  end_wait w q (r ∷ rs) =
      returned (record { server = r.server; replies = rs; sent = q ∷ w.sent }) r.answer

  unfoldable pub await_answer : Request V → M V (Option V)
  await_answer q w = end_wait w q w.replies
