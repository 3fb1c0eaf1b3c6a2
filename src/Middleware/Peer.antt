-- ===== src/Middleware/Peer.antt =====
-- `PeerState`, the body of `send_message_task`'s loop, the answers that `peer_task` dispatches and
-- the end of a peer: who is told what about a request.
pub mod Accounts
pub mod Callbacks
use cs.Base.{ℕ, Bool, true, false, Option, none, some, List, [], ◌∷◌, ◌++◌, if◌then◌else◌, nat_eq}
use cs.Base.HashMap
use cs.Base.HashMap.{HashMap}
use cs.Discord.{add_usize}

-- V stands for a JSON value, C for a callback: the source's closures are only called, once each.
module _ (V C : Type 0) where
  pub record MessageToSend : Type 0 where
    pub message : V
    pub callback : Option C
    pub is_response : Bool

  -- `fired` lists the calls of callbacks, the latest first.
  pub record PeerState : Type 0 where
    pub sequence_num : ℕ
    pub seq_to_callback : HashMap ℕ C
    pub is_alive : Bool
    pub fired : List (C × Option V)

  -- `PeerState::new`.
  abbrev pub new_peer_state : PeerState
  new_peer_state = record { sequence_num = 0; seq_to_callback = []; is_alive = true; fired = [] }

  -- What is written to the socket: the value with the number that was attached, if one was.
  pub record Line : Type 0 where
    pub message : V
    pub sequence_number : Option ℕ
    pub is_response : Bool

  abbrev number_of : MessageToSend → PeerState → ℕ
  number_of m p = if m.is_response then p.sequence_num else add_usize p.sequence_num 1

  abbrev register : Option C → ℕ → HashMap ℕ C → HashMap ℕ C
  register none n callbacks = callbacks
  register (some c) n callbacks = HashMap.insert n c callbacks

  -- The part of the loop under the lock.
  unfoldable pub prepare : MessageToSend → PeerState → PeerState × Line
  prepare m p =
      let n = number_of m p in
      (
        record p { sequence_num = n; seq_to_callback = register m.callback n p.seq_to_callback },
        record {
          message = m.message;
          sequence_number = if m.is_response then none else some n;
          is_response = m.is_response;
        },
      )

  -- `seq_to_callback.drain()`, each callback called with None.
  unfoldable pub give_up_all : HashMap ℕ C → List (C × Option V)
  give_up_all [] = []
  give_up_all ((n, c) ∷ callbacks) = (c, none) ∷ give_up_all callbacks

  unfoldable pub drain : PeerState → PeerState
  unfolding give_up_all
  drain p = record p { seq_to_callback = []; fired = give_up_all p.seq_to_callback ++ p.fired }

  -- The rest of the loop: the line is written if the peer is alive (whether or not the write
  -- succeeds), and else all callbacks are told.
  unfoldable pub write_or_drain : PeerState → PeerState
  unfolding drain
  write_or_drain p = if p.is_alive then p else drain p

  -- `peer_task` on a response with this number.
  unfoldable pub on_response : ℕ → V → PeerState → PeerState
  on_response n value p = elim (HashMap.get n p.seq_to_callback) [
    | none ↦ p
    | some c ↦ record p {
      seq_to_callback = HashMap.remove n p.seq_to_callback;
      fired = (c, some value) ∷ p.fired;
    }
  ]

  -- The timer task of the heartbeats when the peer has missed three.
  unfoldable pub peer_died : PeerState → PeerState
  unfolding drain
  peer_died p = drain (record p { is_alive = false })

  -- The tasks of one peer interleave at these steps.
  pub data Event : Type 0 where
    prepared : MessageToSend → Event
    written : Event
    response : ℕ → V → Event
    died : Event

  unfoldable pub step : PeerState → Event → PeerState
  unfolding prepare write_or_drain on_response peer_died
  step p (prepared m) = (prepare m p).0
  step p written = write_or_drain p
  step p (response n value) = on_response n value p
  step p died = peer_died p

  -- The state after a trace, whose latest event stands first.
  unfoldable pub after : List Event → PeerState
  after [] = new_peer_state
  after (e ∷ trace) = step (after trace) e
