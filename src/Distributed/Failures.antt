-- ===== src/Distributed/Failures.antt =====
-- A primary that fails between the two reads of one attempt.
use cs.Base.{◌≡◌, refl, Bool, true, false, Option, ◌==◌, text_eq, text_beq_iff, arith}
use cs.Base.Text.{Text}
use cs.Distributed.Owners.{LocationConfig, IsPair, pair_differs, is_authoritative, forward_location}
use cs.Distributed.Wire.{Platform}
use cs.Distributed.Run.{World, panicked, M, ◌>>=◌, await_answer}
use cs.Distributed.Forward.{forward_request_to, forward_request, take_answer, attempt_at, attempt}

-- Let a backup hold its primary to be alive when it tests who is in charge. If it holds the primary
-- to be dead when `forward_request` reads this again, the assertion of `forward_request_to` panics;
-- if it still holds it to be alive, the call is one request to the primary.
pub failure_between_reads :
    (p : Platform) {A : Type 0} (l : LocationConfig) (later : Text → Bool) (here : M p.json.Value A)
    (message : p.json.Value) (kind : Text) (decode : p.json.Value → Option A)
    (w : World p.json.Value)
    → IsPair l
    → w.server.is_alive l.primary ≡ true
    → later l.primary ≡ false
    → (attempt_at p l.backup later l here message kind decode w ≡ panicked)
      × (attempt p l.backup l here message kind decode w
          ≡ (await_answer (record { to = l.primary; kind = kind; message = message })
                >>= take_answer p l.backup decode)
              w)
unfolding attempt attempt_at is_authoritative forward_request forward_request_to forward_location
failure_between_reads p l later here message kind decode w pair up down =
    let differs = pair_differs l pair in
    let away : is_authoritative l.backup w.server.is_alive l ≡ false =
      ground (arith, text_beq_iff l.primary l.backup) in
    let other : (l.backup == l.primary) ≡ false = ground (arith, text_beq_iff l.backup l.primary) in
    let itself : (l.backup == l.backup) ≡ true = (text_beq_iff l.backup l.backup).1 refl in
    (rw (away, other, down) (rw itself refl), rw (away, other, up) (rw other refl))
