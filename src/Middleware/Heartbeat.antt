-- ===== src/Middleware/Heartbeat.antt =====
-- `send_pings_task`: the heartbeats to one peer. A ping, the end of its two seconds and the
-- arrival of its answer are the events, in any order. The end of the two seconds is one step,
-- which joins the three parts that the source locks one after the other.
pub mod Trace
use cs.Base.{
  ℕ, suc, ◌+◌, ◌%◌, ◌^◌, ◌≤◌, ◌<◌, ◌≡◌, refl, Bool, true, false, not, ◌&&◌, ◌||◌, List, [], ◌∷◌,
  if◌then◌else◌, ◌==◌, nat_eq, nat_beq, nat_beq_iff, arith, inl, inr, Bool-cases, All,
}
use cs.Base.HashSet.{HashSet, contains, insert, remove, contains-insert, contains-remove}
use cs.Base.Decimal.{usize_mod}

-- `notified` counts the calls of `on_failure.notify_waiters`.
pub record Heartbeat : Type 0 where
  pub key : ℕ
  pub pending : HashSet ℕ
  pub missed : ℕ
  pub is_alive : Bool
  pub notified : ℕ

abbrev pub started : Heartbeat
started = record { key = 0; pending = []; missed = 0; is_alive = true; notified = 0 }

pub data Event : Type 0 where
  -- the loop's body: a ping is sent, and its timer starts
  ping : Event
  -- the timer of the ping with this key ends
  timeout : ℕ → Event
  -- its callback is called, with an answer or (when the peer is given up) with none
  pong : ℕ → Event
  given_up : ℕ → Event

-- The wrap-around of the `i32` that counts the pings.
abbrev pub key_mod : ℕ
key_mod = 2 ^ 32

abbrev miss : ℕ → ℕ
miss missed = (missed + 1) % usize_mod

-- The body of the timer task, after the two seconds.
unfoldable pub on_timeout : ℕ → Heartbeat → Heartbeat
on_timeout k h =
    if contains k h.pending
    then (let h' = record h { pending = remove k h.pending; missed = miss h.missed } in
        if miss h.missed == 3
        then record h' { is_alive = false; notified = h.notified + 1 }
        else h')
    else h

-- `on_ping_callback` with an answer.
unfoldable pub on_pong : ℕ → Heartbeat → Heartbeat
on_pong k h =
    if contains k h.pending then record h { pending = remove k h.pending; missed = 0 } else h

unfoldable pub step : Heartbeat → Event → Heartbeat
unfolding on_timeout on_pong
step h ping = record h { key = (h.key + 1) % key_mod; pending = insert h.key h.pending }
step h (timeout k) = on_timeout k h
step h (pong k) = on_pong k h
step h (given_up k) = h

-- The state after a trace, whose latest event stands first.
unfoldable pub after : List Event → Heartbeat
after [] = started
after (e ∷ trace) = step (after trace) e
