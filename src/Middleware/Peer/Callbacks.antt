-- ===== src/Middleware/Peer/Callbacks.antt =====
-- What becomes of the callbacks that are registered, over all runs.
use mathlib.Core.Path.{subst}
use cs.Base.{
  ◌+◌, ◌<◌, ◌≡◌, refl, ap, false, List, [], ◌∷◌, Eq, nat_eq, arith, inl, inr, Bool-cases, length,
}
use cs.Base.HashMap
use cs.Base.HashMap.{HashMap}
use cs.Base.Decimal.{usize_mod}
use cs.Middleware.Peer.{
  PeerState, drain, write_or_drain, peer_died, Event, prepared, written, response, died, step,
  after,
}
use cs.Middleware.Peer.Accounts.{
  waits, calls, registered, IsQuiet, Accounts, drain-Accounts, respond-Accounts, prepare-Accounts,
  later,
}

module _ (V : Type 0) {C : Type 0} ⦃e : Eq C⦄ where
  mark_dead-Accounts :
      (trace : List (Event V C)) (p : PeerState V C)
      → Accounts V trace p
      → Accounts V trace (record p { is_alive = false })
  mark_dead-Accounts trace p a = record {
    once = a.once;
    unused = a.unused;
    few = a.few;
    balance = a.balance;
  }

  written-Accounts :
      (trace : List (Event V C)) (p : PeerState V C)
      → Accounts V trace p
      → Accounts V (written ∷ trace) (write_or_drain V C p)
  unfolding write_or_drain
  written-Accounts trace p a = elim (Bool-cases p.is_alive) [
    | inl alive ↦
        subst (Accounts V (written ∷ trace)) {x = p} (ground arith)
          (later V trace p a written (λ c. refl))
    | inr dead ↦
        subst (Accounts V (written ∷ trace)) {x = drain V C p} (ground arith)
          (later V trace (drain V C p) (drain-Accounts V trace p a) written (λ c. refl))
  ]

  died-Accounts :
      (trace : List (Event V C)) (p : PeerState V C)
      → Accounts V trace p
      → Accounts V (died ∷ trace) (peer_died V C p)
  unfolding peer_died
  died-Accounts trace p a =
      let p' = record p { is_alive = false } in
      later V trace (drain V C p') (drain-Accounts V trace p' (mark_dead-Accounts trace p a)) died
        (λ c. refl)

  -- In every run, with requests, answers, failed writes and the end of the peer in any order, each
  -- callback has been called as often as it was registered, but for those that still wait: none is
  -- lost and none is called twice. No number is used twice while its callback waits. (Of fewer than
  -- 2^64 events, with no callback on a response.)
  pub after-Accounts :
      (trace : List (Event V C))
      → IsQuiet V trace
      → length trace < usize_mod
      → Accounts V trace (after V C trace)
  unfolding after step
  after-Accounts [] quiet short = record {
    once = unfold HashMap.keys in tt;
    unused = λ n h. unfold HashMap.get in refl;
    few = omega arith;
    balance = λ c. refl;
  }
  after-Accounts (prepared m ∷ trace) quiet short =
      prepare-Accounts V trace (after V C trace) (after-Accounts trace quiet.1 (omega arith)) m
        quiet.0 (omega arith)
  after-Accounts (written ∷ trace) quiet short =
      written-Accounts trace (after V C trace) (after-Accounts trace quiet (omega arith))
  after-Accounts (response n v ∷ trace) quiet short =
      later V trace _
        (respond-Accounts V trace (after V C trace) (after-Accounts trace quiet (omega arith)) n v)
        (response n v) (λ c. refl)
  after-Accounts (died ∷ trace) quiet short =
      died-Accounts trace (after V C trace) (after-Accounts trace quiet (omega arith))

  written_dead :
      (p : PeerState V C) → p.is_alive ≡ false → (write_or_drain V C p).seq_to_callback ≡ []
  unfolding write_or_drain
  written_dead p dead = ground arith

  -- When the peer is declared dead, nobody waits any longer: every callback has been called exactly
  -- as often as it was registered. (Of fewer than 2^64 events, with no callback on a response.)
  pub death_answers_all :
      (trace : List (Event V C)) (c : C)
      → IsQuiet V trace
      → length trace + 1 < usize_mod
      → calls V c (after V C (died ∷ trace)).fired ≡ registered V c trace
  death_answers_all trace c quiet short =
      let at_death = after-Accounts (died ∷ trace) quiet (omega arith) in
      unfold after step peer_died drain in omega (arith, at_death.balance c)

  -- Once the sending task has handled a message to a dead peer, nobody waits: every callback has
  -- been called exactly as often as it was registered. (Of fewer than 2^64 events, with no callback
  -- on a response.)
  pub dead_answers_all :
      (trace : List (Event V C)) (c : C)
      → IsQuiet V trace
      → length trace + 1 < usize_mod
      → (after V C trace).is_alive ≡ false
      → calls V c (after V C (written ∷ trace)).fired ≡ registered V c trace
  dead_answers_all trace c quiet short dead =
      let at_write = after-Accounts (written ∷ trace) quiet (omega arith) in
      let nobody : (after V C (written ∷ trace)).seq_to_callback ≡ [] =
        unfold after step in written_dead (after V C trace) dead in
      omega (arith, at_write.balance c, ap (λ callbacks. waits c callbacks) nobody)
