-- ===== src/Middleware/Heartbeat/Trace.antt =====
-- The heartbeats, read off the trace of events alone.
use cs.Base.{
  ℕ, suc, ◌+◌, ◌≤◌, ◌<◌, ◌≡◌, refl, Bool, true, false, not, ◌&&◌, ◌||◌, List, [], ◌∷◌,
  if◌then◌else◌, ◌==◌, nat_eq, nat_beq_iff, leb, length, arith,
}
use cs.Base.HashSet.{contains, contains-insert, contains-remove}
use cs.Base.Decimal.{usize_mod}
use cs.Middleware.Heartbeat.{Heartbeat, Event, ping, timeout, pong, given_up, key_mod, step, after}

-- How many pings were sent.
abbrev pub pings : List Event → ℕ
pings [] = 0
pings (ping ∷ trace) = suc (pings trace)
pings (e ∷ trace) = pings trace

-- The ping with this key was sent, and neither its answer nor its timeout has come since.
abbrev pub is_open : ℕ → List Event → Bool
is_open k [] = false
is_open k (ping ∷ trace) = pings trace == k || is_open k trace
is_open k (timeout j ∷ trace) = not (j == k) && is_open k trace
is_open k (pong j ∷ trace) = not (j == k) && is_open k trace
is_open k (given_up j ∷ trace) = is_open k trace

-- How many pings ran out since the last one that was answered in time.
abbrev pub misses : List Event → ℕ
misses [] = 0
misses (ping ∷ trace) = misses trace
misses (timeout k ∷ trace) = if is_open k trace then misses trace + 1 else misses trace
misses (pong k ∷ trace) = if is_open k trace then 0 else misses trace
misses (given_up k ∷ trace) = misses trace

-- At some time three pings had run out since the last one that was answered in time.
abbrev pub has_failed : List Event → Bool
has_failed [] = false
has_failed (e ∷ trace) = leb 3 (misses (e ∷ trace)) || has_failed trace

pub record Agrees (trace : List Event) (h : Heartbeat) : Type 0 where
  pub keys : h.key ≡ pings trace
  pub pending : (k : ℕ) → contains k h.pending ≡ is_open k trace
  pub missed : h.missed ≡ misses trace
  pub alive : h.is_alive ≡ not (has_failed trace)

misses-le : (trace : List Event) → misses trace ≤ length trace
misses-le [] = omega arith
misses-le (ping ∷ trace) = omega (arith, misses-le trace)
misses-le (timeout k ∷ trace) = ground (arith, misses-le trace)
misses-le (pong k ∷ trace) = ground (arith, misses-le trace)
misses-le (given_up k ∷ trace) = omega (arith, misses-le trace)

failed-of_misses : (trace : List Event) → leb 3 (misses trace) ≡ true → has_failed trace ≡ true
failed-of_misses [] h = cc
failed-of_misses (e ∷ trace) h = rw h

module _ (trace : List Event) (h : Heartbeat) (a : Agrees trace h)
    (short : length trace + 1 < usize_mod) where
  ping-Agrees : pings trace + 1 < key_mod → Agrees (ping ∷ trace) (step h ping)
  unfolding step
  ping-Agrees few = record {
    keys = omega (arith, a.keys);
    pending = λ k. ground (arith, contains-insert h.key k h.pending, a.pending k, a.keys);
    missed = a.missed;
    alive = ground (arith, a.alive, failed-of_misses trace);
  }

  timeout-Agrees : (k : ℕ) → Agrees (timeout k ∷ trace) (step h (timeout k))
  unfolding step
  timeout-Agrees k = record {
    keys = ground (arith, a.keys);
    pending = λ j.
        ground (arith, contains-remove k j h.pending, a.pending k, a.pending j, nat_beq_iff k j);
    missed = ground (arith, a.pending k, a.missed, misses-le trace);
    alive = ground (arith, a.pending k, a.missed, a.alive, misses-le trace, failed-of_misses trace);
  }

  pong-Agrees : (k : ℕ) → Agrees (pong k ∷ trace) (step h (pong k))
  unfolding step
  pong-Agrees k = record {
    keys = ground (arith, a.keys);
    pending = λ j.
        ground (arith, contains-remove k j h.pending, a.pending k, a.pending j, nat_beq_iff k j);
    missed = ground (arith, a.pending k, a.missed);
    alive = ground (arith, a.pending k, a.missed, a.alive, failed-of_misses trace);
  }

  given_up-Agrees : (k : ℕ) → Agrees (given_up k ∷ trace) (step h (given_up k))
  unfolding step
  given_up-Agrees k = record {
    keys = a.keys;
    pending = a.pending;
    missed = a.missed;
    alive = ground (arith, a.alive, failed-of_misses trace);
  }

-- Whatever the order of pings, timeouts and answers, the task's counter is the number of pings
-- that ran out since the last one answered in time, a key is pending exactly while its ping is
-- open, and the peer is held to be alive exactly if at no time three pings had run out since the
-- last one answered in time. (Of fewer than 2^32 pings and 2^64 events.)
pub after-Agrees :
    (trace : List Event)
    → pings trace < key_mod
    → length trace < usize_mod
    → Agrees trace (after trace)
unfolding after
after-Agrees [] few short = record {
  keys = refl;
  pending = λ k. unfold contains in refl;
  missed = refl;
  alive = refl;
}
after-Agrees (ping ∷ trace) few short =
    ping-Agrees trace (after trace) (after-Agrees trace (omega arith) (omega arith)) (omega arith)
      (omega arith)
after-Agrees (timeout k ∷ trace) few short =
    timeout-Agrees trace (after trace) (after-Agrees trace few (omega arith)) (omega arith) k
after-Agrees (pong k ∷ trace) few short =
    pong-Agrees trace (after trace) (after-Agrees trace few (omega arith)) (omega arith) k
after-Agrees (given_up k ∷ trace) few short =
    given_up-Agrees trace (after trace) (after-Agrees trace few (omega arith)) (omega arith) k

-- Once the peer is held to be dead, no later answer brings it back.
pub is_alive-step : (h : Heartbeat) (e : Event) → h.is_alive ≡ false → (step h e).is_alive ≡ false
unfolding step
is_alive-step h ping dead = dead
is_alive-step h (timeout k) dead = ground arith
is_alive-step h (pong k) dead = ground arith
is_alive-step h (given_up k) dead = dead
