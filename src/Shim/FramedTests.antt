-- ===== src/Shim/FramedTests.antt =====
-- Two responses in three chunks, and a response that is lost.
use loopstorm_guard.Common.{◌≡◌, refl, none, some, Option, [], ◌∷◌, map, arith}
use loopstorm_guard.Shim.Guard.{DecisionResponse}
use loopstorm_guard.Shim.Connection.{
  Bytes, chunk, timeout, response, unavailable, split_line, await_line, recv_response, recv_many,
  connect,
}
use loopstorm_guard.Shim.Framed.{recv_many-framed}

abbrev answer : DecisionResponse
answer = record {
  run_id = "r1";
  seq = 1;
  decision = "allow";
  rule_id = none;
  reason = none;
  cooldown_ms = none;
  cooldown_message = none;
  approval_id = none;
  approval_timeout_ms = none;
  approval_timeout_action = none;
  budget_remaining = none;
}

abbrev from_json : Bytes → Option DecisionResponse
from_json bytes = some answer

-- Two lines in two chunks before the second wait: the second line is lost, and its wait times out.
lost_test :
    recv_many from_json
      ((chunk (65 ∷ 10 ∷ []) ∷ chunk (66 ∷ 10 ∷ []) ∷ []) ∷ (timeout ∷ []) ∷ [])
      connect
    ≡ response answer ∷ unavailable ∷ []
unfolding recv_many recv_response await_line split_line
lost_test = refl

-- The second line begins in the chunk that completes the first one.
recv_many-framed_example :
    recv_many from_json
      (map (map chunk) (((65 ∷ []) ∷ (66 ∷ 10 ∷ 67 ∷ []) ∷ []) ∷ ((10 ∷ []) ∷ []) ∷ []))
      connect
    ≡ response answer ∷ response answer ∷ []
recv_many-framed_example =
    recv_many-framed from_json ((65 ∷ 66 ∷ [], answer) ∷ (67 ∷ [], answer) ∷ [])
      (((65 ∷ []) ∷ (66 ∷ 10 ∷ 67 ∷ []) ∷ []) ∷ ((10 ∷ []) ∷ []) ∷ [])
      (
        (refl, (refl, tt)),
        refl,
        (tt, ((refl, tt), tt)),
        omega arith,
        (67 ∷ [], refl, ((refl, tt), refl, ((refl, tt), tt), omega arith, ([], refl, tt))),
      )
