-- ===== src/Tests/Distributed.antt =====
-- Owners under a hash of names, and the start of the three servers.
use cs.Base.{ℕ, ◌≡◌, ◌↔◌, refl, Bool, true, not, some, ◌==◌, text_eq, text_beq, length}
use cs.Base.Text.{Text, lit}
use cs.Distributed.Owners.{a_b, c_a, user_owner, is_authoritative, forward_location, authority_iff}
use cs.Distributed.Startup.{StartsRight, init-StartsRight}

-- A hash that takes every value.
abbrev by_length : Text → ℕ
by_length = length

owner_of_alice : user_owner by_length (lit "alice") ≡ some c_a
unfolding user_owner lit
owner_of_alice = refl

init-StartsRight_example :
    StartsRight by_length (lit "A")
    × StartsRight by_length (lit "B")
    × StartsRight by_length (lit "C")
init-StartsRight_example = init-StartsRight by_length

-- A is held to be dead.
abbrev without_a : Text → Bool
without_a = λ id. not (id == lit "A")

b_is_alive : without_a (lit "B") ≡ true
unfolding lit text_beq
b_is_alive = refl

authority_iff_example :
    (is_authoritative (lit "B") without_a a_b ≡ true) ↔ (lit "B" ≡ forward_location without_a a_b)
authority_iff_example = authority_iff a_b (lit "B") without_a b_is_alive
