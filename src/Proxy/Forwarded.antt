-- ===== src/Proxy/Forwarded.antt =====
-- When the proxy forwards a call, and under which name.
use mathlib.Core.Path.{subst}
use mathlib.Core.Option.{some-injective}
use loopstorm_guard.Common.{
  ℕ, ◌≡◌, inl, inr, refl, String, true, Option, none, some, List, [], ◌∷◌, arith, Bool-cases,
  Option-cases, Any, All, str_eq, str_eq_iff, is_some,
}
use loopstorm_guard.Common.Dict
use loopstorm_guard.Json.{Json}
use loopstorm_guard.Shim.Jcs.{args_hash}
use loopstorm_guard.Shim.Guard.{DecisionResponse}
use loopstorm_guard.Proxy.{
  Tool, UpstreamConfig, UpstreamClient, LoopStormProxy, display_name, connect_upstreams,
  find_upstream, original_name, ToolCallParams, begin_call, decision_request, EngineReply, decided,
  engine_unavailable, engine_failed, decision_response_to_mcp_error, forwarded, on_reply, on_error,
  forward, call_tool,
}
use loopstorm_guard.Proxy.Listed.{IsListed, connect_upstreams-IsListed, shown_tool}

find_upstream-found :
    (P : UpstreamClient → Type 0) (name : String) (clients : List UpstreamClient)
    (client : UpstreamClient)
    → All P clients
    → find_upstream name clients ≡ some client
    → P client × (is_some (Dict.get name client.tools) ≡ true)
unfolding find_upstream
find_upstream-found P name [] client h found = cc
find_upstream-found P name (c ∷ clients) client (p, h) found =
    elim (Bool-cases (is_some (Dict.get name c.tools))) [
      | inl e ↦
          let same : c ≡ client = some-injective c client (rw (find_upstream, e) at found) in
          (subst P same p, subst (λ x. is_some (Dict.get name x.tools) ≡ true) same e)
      | inr e ↦ find_upstream-found P name clients client h (rw (find_upstream, e) at found)
    ]

allowed_lem :
    (r : DecisionResponse) → decision_response_to_mcp_error r ≡ none → r.decision ≡ "allow"
unfolding decision_response_to_mcp_error
allowed_lem r h = elim (Bool-cases (str_eq r.decision "allow")) [
  | inl e ↦ (str_eq_iff r.decision "allow").0 e
  | inr e ↦ absurd (ground (arith, h, e))
]

-- What stands behind a call that is forwarded: an answer that is no error, and a client.
on_reply-forwarded :
    (params : ToolCallParams) (clients : List UpstreamClient) (reply : EngineReply)
    (upstream tool : String) (arguments : Option Json)
    → on_reply params clients reply ≡ forwarded upstream tool arguments
    → ((r : DecisionResponse) × (reply ≡ decided r) × (r.decision ≡ "allow"))
      × (forward params (find_upstream params.name clients) ≡ forwarded upstream tool arguments)
on_reply-forwarded params clients engine_unavailable upstream tool arguments h = absurd (cc h)
on_reply-forwarded params clients engine_failed upstream tool arguments h = absurd (cc h)
on_reply-forwarded params clients (decided r) upstream tool arguments h =
    elim (Option-cases (decision_response_to_mcp_error r)) [
      | inl e ↦ ((r, refl, allowed_lem r e), rw (e, on_error) at h)
      | inr (error, e) ↦ absurd (cc (h, e))
    ]

-- A call that goes to a client goes to the one that is found, under its original name.
forward-forwarded :
    (params : ToolCallParams) (clients : List UpstreamClient) (upstream tool : String)
    (arguments : Option Json)
    → forward params (find_upstream params.name clients) ≡ forwarded upstream tool arguments
    → (arguments ≡ params.arguments)
      × ((client : UpstreamClient) × (find_upstream params.name clients ≡ some client)
          × (client.config.id ≡ upstream)
          × (original_name client params.name ≡ tool))
forward-forwarded params clients upstream tool arguments h =
    elim (Option-cases (find_upstream params.name clients)) [
      | inl e ↦ absurd (cc (h, e))
      | inr (client, e) ↦
          let same : forwarded client.config.id (original_name client params.name) params.arguments
              ≡ forwarded upstream tool arguments =
            rw (e) at h in
          (cc same, (client, e, cc same, cc same))
    ]

-- The call goes to a client, under the name that its upstream has listed.
abbrev pub GoesTo :
    (UpstreamConfig → Option (List Tool))
    → ToolCallParams
    → String
    → String
    → UpstreamClient
    → Type 0
GoesTo list_tools params upstream tool client =
    (client.config.id ≡ upstream)
    × ((listed : List Tool) × (list_tools client.config ≡ some listed)
        × Any (λ t. (display_name client.config t ≡ params.name) × (t.name ≡ tool)) listed)

-- A proxy whose upstreams have been connected forwards a call only if it has asked for the request
-- with the run and the number of this call, its name and the hash of its arguments, and the next
-- response on the connection is "allow". The run and the number in that response do not count: with
-- any others the call is forwarded as well. It goes, with the same arguments, to an upstream that
-- has listed a tool which the proxy shows under the name of the call, under the name by which the
-- upstream has listed it.
pub call_tool-forwarded :
    (list_tools : UpstreamConfig → Option (List Tool)) (configs : List UpstreamConfig)
    (sha256 : String → String) (reply : EngineReply) (params : ToolCallParams) (ts : String)
    (proxy : LoopStormProxy) (upstream tool : String) (arguments : Option Json)
    (other_run_id : String) (other_seq : ℕ)
    → proxy.upstreams ≡ (connect_upstreams list_tools configs).clients
    → (call_tool sha256 reply params ts proxy).result ≡ forwarded upstream tool arguments
    → ((hash : String) × (args_hash sha256 params.arguments ≡ some hash)
        × ((call_tool sha256 reply params ts proxy).sent
            ≡ some (decision_request (begin_call params proxy) params hash ts)))
      × ((r : DecisionResponse) × (reply ≡ decided r)
          × (r.decision ≡ "allow")
          × ((call_tool sha256
                (decided (record r { run_id = other_run_id; seq = other_seq }))
                params
                ts
                proxy).result
              ≡ forwarded upstream tool arguments))
      × (arguments ≡ params.arguments)
      × ((client : UpstreamClient) × GoesTo list_tools params upstream tool client)
unfolding call_tool decision_response_to_mcp_error
call_tool-forwarded list_tools configs sha256 reply params ts proxy upstream tool arguments
      other_run_id other_seq is_connected h =
    elim (Option-cases (args_hash sha256 params.arguments)) [
      | inl e ↦ absurd (cc (rw (call_tool, e) at h))
      | inr (hash, e) ↦
          let p = begin_call params proxy in
          let ((r, is_answer, is_allowed), is_forward) =
            on_reply-forwarded params p.upstreams reply upstream tool arguments
              (rw (call_tool, e) at h) in
          let (same_arguments, (client, is_found, is_id, is_name)) =
            forward-forwarded params p.upstreams upstream tool arguments is_forward in
          let connected : All (IsListed list_tools) p.upstreams =
            rw (is_connected) (connect_upstreams-IsListed list_tools configs) in
          let (client_listed, has_tool) =
            find_upstream-found (IsListed list_tools) params.name p.upstreams client connected
              is_found in
          let is_shown =
            shown_tool client params.name tool client_listed.listed is_name
              (client_listed.all_listed params.name has_tool) in
          let allows : str_eq r.decision "allow" ≡ true =
            (str_eq_iff r.decision "allow").1 is_allowed in
          (
            (hash, e, rw (call_tool, e) refl),
            (r, is_answer, is_allowed, rw (call_tool, e, allows) is_forward),
            same_arguments,
            (client, (is_id, (client_listed.listed, client_listed.is_answer, is_shown))),
          )
    ]
