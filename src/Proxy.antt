-- ===== src/Proxy.antt =====
-- The MCP proxy: apps/mcp-proxy/src/proxy.ts and mapping.ts. The wait of a cooldown and the texts of
-- errors in their JSON form are left out.
mod Listed
mod Forwarded
mod Tests
use Prim.Native.Char.{Char, code}
use Prim.Native.String
use loopstorm_guard.Common.{
  ℕ, ◌+◌, ◌-◌, ◌==◌, String, Bool, true, false, not, ◌&&◌, ◌||◌, Option, none, some, List, [], ◌∷◌,
  ◌++◌, ltb, str_eq, if◌then◌else◌, is_some,
}
use loopstorm_guard.Common.Dict
use loopstorm_guard.Json.{Json, null, str, ◌<>◌}
use loopstorm_guard.Session.Sanitize.{text_length}
use loopstorm_guard.Shim.Jcs.{args_hash}
use loopstorm_guard.Shim.Guard.{DecisionRequest, DecisionResponse}

pub record Tool : Type 0 where
  pub name : String
  pub description : Option String
  pub input_schema : Json

pub record UpstreamConfig : Type 0 where
  pub id : String
  pub is_stdio : Bool
  pub prefix : Bool

pub record UpstreamClient : Type 0 where
  pub config : UpstreamConfig
  pub tools : List (String × Tool)

pub record LoopStormProxy : Type 0 where
  pub agent_name : Option String
  pub agent_role : Option String
  pub environment : Option String
  pub upstreams : List UpstreamClient
  pub run_id : String
  pub run_id_locked : Bool
  pub seq : ℕ

-- Some upstreams are connected, and perhaps the connection of the next one has thrown.
pub record Connected : Type 0 where
  pub clients : List UpstreamClient
  pub has_failed : Bool

abbrev pub display_name : UpstreamConfig → Tool → String
display_name config tool = if config.prefix then config.id <> ("." <> tool.name) else tool.name

-- The last tool of a name stays, in the place of the first.
unfoldable pub add_tools : UpstreamConfig → List Tool → List (String × Tool) → List (String × Tool)
add_tools config [] tools = tools
add_tools config (t ∷ ts) tools = add_tools config ts (Dict.set (display_name config t) t tools)

abbrev pub client_of : UpstreamConfig → List Tool → UpstreamClient
client_of config listed = record { config = config; tools = add_tools config listed [] }

abbrev pub before_others : UpstreamClient → Connected → Connected
before_others client others = record others { clients = client ∷ others.clients }

abbrev pub with_tools : UpstreamConfig → Connected → Option (List Tool) → Connected
with_tools config others none = record { clients = []; has_failed = true }
with_tools config others (some listed) = before_others (client_of config listed) others

-- `connectUpstreams`; `list_tools` connects to an upstream and asks for its tools, and throws where
-- it is `none`.
unfoldable pub connect_upstreams :
    (UpstreamConfig → Option (List Tool)) → List UpstreamConfig → Connected
connect_upstreams list_tools [] = record { clients = []; has_failed = false }
connect_upstreams list_tools (config ∷ configs) =
    let others = connect_upstreams list_tools configs in
    if config.is_stdio then with_tools config others (list_tools config) else others

abbrev tool_entries : List (String × Tool) → List Tool
tool_entries [] = []
tool_entries ((name, tool) ∷ tools) = record tool { name = name } ∷ tool_entries tools

-- `tools/list`.
unfoldable pub list_all_tools : List UpstreamClient → List Tool
list_all_tools [] = []
list_all_tools (client ∷ clients) = tool_entries client.tools ++ list_all_tools clients

-- `findUpstreamForTool`.
unfoldable pub find_upstream : String → List UpstreamClient → Option UpstreamClient
find_upstream tool [] = none
find_upstream tool (client ∷ clients) =
    if is_some (Dict.get tool client.tools) then some client else find_upstream tool clients

-- `s.slice(n)`, in UTF-16 units.
abbrev pub units : Char → ℕ
units c = if ltb (code c) 0x10000 then 1 else 2

unfoldable pub slice_from : ℕ → String → String
slice_from n String.[] = ""
slice_from n (String.◌∷◌ c s) =
    let rest = slice_from (n - units c) s in if n == 0 then String.◌∷◌ c s else rest

abbrev pub original_name : UpstreamClient → String → String
original_name client tool =
    if client.config.prefix then slice_from (text_length client.config.id + 1) tool else tool

-- `params`, with `_meta.loopstorm_run_id`.
pub record ToolCallParams : Type 0 where
  pub name : String
  pub arguments : Option Json
  pub meta_run_id : Option Json

-- A value that counts as true, and is a text that is not empty.
abbrev override_of : Option Json → Option String
override_of (some (str s)) = if str_eq s "" then none else some s
override_of value = none

abbrev overridden : String → Option String → String
overridden run_id none = run_id
overridden run_id (some override) = override

-- The first call may name the run; every call has the next number.
abbrev pub begin_call : ToolCallParams → LoopStormProxy → LoopStormProxy
begin_call params p = record p {
  run_id =
      if p.run_id_locked then p.run_id else overridden p.run_id (override_of params.meta_run_id);
  run_id_locked = true;
  seq = p.seq + 1;
}

abbrev or_null : Option Json → Json
or_null none = null
or_null (some args) = args

-- `mcpToolCallToDecisionRequest`: a call without arguments is sent with null.
abbrev pub decision_request : LoopStormProxy → ToolCallParams → String → String → DecisionRequest
decision_request p params hash ts = record {
  run_id = p.run_id;
  seq = p.seq;
  tool = params.name;
  args_hash = hash;
  ts = ts;
  args_redacted = some (or_null params.arguments);
  agent_role = p.agent_role;
  agent_name = p.agent_name;
  model = none;
  input_tokens = none;
  output_tokens = none;
  estimated_cost_usd = none;
  environment = p.environment;
}

pub data EngineReply : Type 0 where
  decided : DecisionResponse → EngineReply
  engine_unavailable : EngineReply
  engine_failed : EngineReply

-- The errors by their codes, from LOOPSTORM_DENIED on.
pub data McpError : Type 0 where
  loopstorm_denied : (rule_id reason : Option String) → McpError
  loopstorm_cooldown : (ms : Option ℕ) (message : Option String) → McpError
  loopstorm_killed : (rule_id reason : Option String) → McpError
  loopstorm_approval_required : (approval_id : Option String) (timeout_ms : Option ℕ) → McpError
  loopstorm_engine_unavailable : McpError

-- `decisionResponseToMcpError`; `none` lets the call through.
unfoldable pub decision_response_to_mcp_error : DecisionResponse → Option McpError
decision_response_to_mcp_error r =
    if str_eq r.decision "allow"
    then none
    else if str_eq r.decision "deny"
    then some (loopstorm_denied r.rule_id r.reason)
    else if str_eq r.decision "cooldown"
    then some (loopstorm_cooldown r.cooldown_ms r.cooldown_message)
    else if str_eq r.decision "kill"
    then some (loopstorm_killed r.rule_id r.reason)
    else if str_eq r.decision "require_approval"
    then some (loopstorm_approval_required r.approval_id r.approval_timeout_ms)
    else some (loopstorm_killed none (some ("Unknown decision type: " <> r.decision)))

pub data CallResult : Type 0 where
  forwarded : (upstream tool : String) (arguments : Option Json) → CallResult
  mcp_error : McpError → CallResult
  no_upstream : (tool : String) → CallResult
  thrown : CallResult

abbrev pub forward : ToolCallParams → Option UpstreamClient → CallResult
forward params none = no_upstream params.name
forward params (some client) =
    forwarded client.config.id (original_name client params.name) params.arguments

abbrev pub on_error : ToolCallParams → List UpstreamClient → Option McpError → CallResult
on_error params upstreams (some error) = mcp_error error
on_error params upstreams none = forward params (find_upstream params.name upstreams)

abbrev pub on_reply : ToolCallParams → List UpstreamClient → EngineReply → CallResult
on_reply params upstreams (decided r) = on_error params upstreams (decision_response_to_mcp_error r)
on_reply params upstreams engine_unavailable = mcp_error loopstorm_engine_unavailable
on_reply params upstreams engine_failed = thrown

-- A call, with the request that `engine.request` is given.
pub record Call : Type 0 where
  pub proxy : LoopStormProxy
  pub sent : Option DecisionRequest
  pub result : CallResult

-- `tools/call`, at the time `ts`. `reply` is how the wait for a response ends: the connection takes
-- the next line of its socket, whichever request it answers. What a call changes in the proxy it
-- changes before it waits, so that `begin_call` of a later call may come before the reply.
unfoldable pub call_tool :
    (String → String) → EngineReply → ToolCallParams → String → LoopStormProxy → Call
call_tool sha256 reply params ts proxy =
    let p = begin_call params proxy in
    elim (args_hash sha256 params.arguments) [
      | none ↦ record { proxy = p; sent = none; result = thrown }
      | some hash ↦ record {
        proxy = p;
        sent = some (decision_request p params hash ts);
        result = on_reply params p.upstreams reply;
      }
    ]
