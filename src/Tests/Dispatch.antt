-- ===== src/Tests/Dispatch.antt =====
-- A request and its response on the wire.
use cs.Base.{◌≡◌, refl, true, false, some, [], ◌∷◌, ◌==◌, text_eq, text_beq, arith}
use cs.Base.Text.{lit}
use cs.Distributed.Wire.{fields, as_request, as_response}
use cs.Distributed.Dispatch.{dispatch, response_message, mark, answer, call_back, dispatch_lem}
use cs.Tests.Platform.{platform, json}

abbrev parameters : json.Map
parameters = fields platform ((lit "username", json.string (lit "alice")) ∷ [])

abbrev result : json.Map
result = fields platform ((lit "ok", json.null) ∷ [])

not_ping : (lit "create_user" == lit "PING") ≡ false
unfolding lit text_beq
not_ping = refl

not_leader : (lit "create_user" == lit "LEADER_ANNOUNCEMENT") ≡ false
unfolding lit text_beq
not_leader = refl

dispatch_lem_example :
    (dispatch platform
        (lit "C")
        (as_request platform 5 (lit "create_user") (json.object parameters))
      ≡ some (
          answer
            (lit "create_user")
            (as_request platform 5 (lit "create_user") (json.object parameters))
            5))
    × (dispatch platform (lit "B") (
          mark platform true (response_message platform (lit "create_user") 5 (json.object result)))
        ≡ some (call_back 5 (as_response platform 5 (lit "create_user") (json.object result))))
dispatch_lem_example =
    dispatch_lem platform (lit "C") (lit "B") (lit "create_user") parameters result 5 (omega arith)
      not_ping not_leader
