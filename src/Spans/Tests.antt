-- ===== src/Spans/Tests.antt =====
-- The status of a denied call.
use loopstorm_guard.Common.{◌≡◌, refl, none, some}
use loopstorm_guard.Spans.{error, span_status_for_event}

denied_test : (span_status_for_event "policy_decision" (some "deny") none none).code ≡ error
unfolding span_status_for_event
denied_test = refl
