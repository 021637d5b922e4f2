-- ===== src/Proxy/Tests.antt =====
-- The proxy at a concrete call.
use loopstorm_guard.Common.{◌≡◌, refl, String, true, false, Option, none, some, List, [], ◌∷◌}
use loopstorm_guard.Common.Dict
use loopstorm_guard.Json.{Json, str, null}
use loopstorm_guard.Session.Sanitize.{text_length}
use loopstorm_guard.Shim.Jcs.{args_hash}
use loopstorm_guard.Shim.Guard.{DecisionResponse}
use loopstorm_guard.Proxy.{
  Tool, UpstreamConfig, UpstreamClient, LoopStormProxy, add_tools, connect_upstreams, find_upstream,
  slice_from, ToolCallParams, begin_call, decision_request, decided, decision_response_to_mcp_error,
  forwarded, call_tool,
}
use loopstorm_guard.Proxy.Forwarded.{GoesTo, call_tool-forwarded}

abbrev read_file : Tool
read_file = record { name = "read"; description = none; input_schema = null }

abbrev files : UpstreamConfig
files = record { id = "files"; is_stdio = true; prefix = true }

abbrev list_tools : UpstreamConfig → Option (List Tool)
list_tools config = some (read_file ∷ [])

abbrev proxy : LoopStormProxy
proxy = record {
  agent_name = none;
  agent_role = none;
  environment = none;
  upstreams = (connect_upstreams list_tools (files ∷ [])).clients;
  run_id = "random";
  run_id_locked = false;
  seq = 0;
}

abbrev params : ToolCallParams
params = record { name = "files.read"; arguments = none; meta_run_id = some (str "r1") }

-- A response to another call.
abbrev late : DecisionResponse
late = record {
  run_id = "r0";
  seq = 7;
  decision = "allow";
  rule_id = none;
  reason = none;
  cooldown_ms = none;
  cooldown_message = none;
  approval_id = none;
  approval_timeout_ms = none;
  approval_timeout_action = none;
  budget_remaining = none;
}

forwarded_test :
    (call_tool (λ s. s) (decided late) params "now" proxy).result ≡ forwarded "files" "read" none
unfolding call_tool args_hash decision_response_to_mcp_error connect_upstreams add_tools
    find_upstream Dict.get Dict.set slice_from text_length
forwarded_test = refl

call_tool-forwarded_example :
    ((hash : String) × (args_hash (λ s. s) none ≡ some hash)
      × ((call_tool (λ s. s) (decided late) params "now" proxy).sent
          ≡ some (decision_request (begin_call params proxy) params hash "now")))
    × ((r : DecisionResponse) × (decided late ≡ decided r)
        × (r.decision ≡ "allow")
        × ((call_tool
              (λ s. s)
              (decided (record r { run_id = "r1"; seq = 1 }))
              params
              "now"
              proxy).result
            ≡ forwarded "files" "read" none))
    × (◌≡◌ {A = Option Json} none none)
    × ((client : UpstreamClient) × GoesTo list_tools params "files" "read" client)
call_tool-forwarded_example =
    call_tool-forwarded list_tools (files ∷ []) (λ s. s) (decided late) params "now" proxy "files"
      "read" none "r1" 1 refl forwarded_test
