-- ===== src/Proxy/Listed.antt =====
-- What the connected upstreams have listed, and the names that the proxy shows.
use text.Mathlib.TextLemmas.{nil-append, cons-append}
use loopstorm_guard.Common.{
  ℕ, ◌+◌, ◌-◌, ◌≡◌, ◌⊎◌, inl, inr, refl, sym, ap, ◌∙◌, String, true, false, Option, none, some,
  List, [], ◌∷◌, arith, Bool-cases, Any, All, ◌==◌, str_eq, str_eq_iff, if_either, is_some,
}
use loopstorm_guard.Common.Dict
use loopstorm_guard.Json.{◌<>◌}
use loopstorm_guard.Session.Sanitize.{text_length}
use loopstorm_guard.Proxy.{
  with_tools, Connected, Tool, UpstreamConfig, UpstreamClient, display_name, add_tools, client_of,
  connect_upstreams, units, slice_from, original_name,
}

slice_from-append :
    (s t : String) (n : ℕ) → slice_from (text_length s + n) (s <> t) ≡ slice_from n t
unfolding slice_from text_length
slice_from-append String.[] t n = rw (nil-append t) (ap (λ k. slice_from k t) (omega arith))
slice_from-append (String.◌∷◌ c s) t n =
    let whole = units c + text_length s + n in
    let nonzero : (whole == 0) ≡ false = ground arith in
    let less : whole - units c ≡ text_length s + n = ground arith in
    rw (cons-append c s t, slice_from, nonzero, less) (slice_from-append s t n)

slice_from_zero : (s : String) → slice_from 0 s ≡ s
unfolding slice_from
slice_from_zero String.[] = refl
slice_from_zero (String.◌∷◌ c s) = refl

-- The prefix of a name is taken off again.
original-display :
    (client : UpstreamClient) (tool : Tool)
    → original_name client (display_name client.config tool) ≡ tool.name
unfolding slice_from
original-display client tool = elim (Bool-cases client.config.prefix) [
  | inl e ↦ rw (e) (
      slice_from-append client.config.id ("." <> tool.name) 1
      ∙ rw (cons-append, nil-append) (slice_from_zero tool.name))
  | inr e ↦ rw (e) refl
]

-- The upstream has listed a tool under this name.
abbrev pub Lists : UpstreamConfig → String → List Tool → Type 0
Lists config name listed = Any (λ t. display_name config t ≡ name) listed

-- A client has the tools that its upstream has listed.
pub record IsListed (list_tools : UpstreamConfig → Option (List Tool)) (client : UpstreamClient)
    : Type 0 where
  pub listed : List Tool
  pub is_answer : list_tools client.config ≡ some listed
  pub all_listed :
      (name : String)
      → is_some (Dict.get name client.tools) ≡ true
      → Lists client.config name listed

add_tools-get :
    (config : UpstreamConfig) (ts : List Tool) (tools : List (String × Tool)) (name : String)
    → is_some (Dict.get name (add_tools config ts tools)) ≡ true
    → Lists config name ts ⊎ (is_some (Dict.get name tools) ≡ true)
unfolding add_tools
add_tools-get config [] tools name h = inr h
add_tools-get config (t ∷ ts) tools name h =
    let name' = display_name config t in
    elim (add_tools-get config ts (Dict.set name' t tools) name h) [
      | inl later ↦ inl (inr later)
      | inr now ↦ elim (Bool-cases (str_eq name' name)) [
        | inl e ↦ inl (inl ((str_eq_iff name' name).0 e))
        | inr e ↦ inr (rw (Dict.get-set name' name t tools, e) at now)
      ]
    ]

client_of-IsListed :
    (list_tools : UpstreamConfig → Option (List Tool)) (config : UpstreamConfig)
    (listed : List Tool)
    → list_tools config ≡ some listed
    → IsListed list_tools (client_of config listed)
unfolding Dict.get
client_of-IsListed list_tools config listed e = record {
  listed = listed;
  is_answer = e;
  all_listed = λ name h. elim (add_tools-get config listed [] name h) [
    | inl found ↦ found
    | inr none_there ↦ absurd (cc none_there)
  ];
}

with_tools-IsListed :
    (list_tools : UpstreamConfig → Option (List Tool)) (config : UpstreamConfig) (rest : Connected)
    (answer : Option (List Tool))
    → list_tools config ≡ answer
    → All (IsListed list_tools) rest.clients
    → All (IsListed list_tools) (with_tools config rest answer).clients
with_tools-IsListed list_tools config rest none e h = tt
with_tools-IsListed list_tools config rest (some listed) e h =
    (client_of-IsListed list_tools config listed e, h)

pub connect_upstreams-IsListed :
    (list_tools : UpstreamConfig → Option (List Tool)) (configs : List UpstreamConfig)
    → All (IsListed list_tools) (connect_upstreams list_tools configs).clients
unfolding connect_upstreams
connect_upstreams-IsListed list_tools [] = tt
connect_upstreams-IsListed list_tools (config ∷ configs) =
    let others = connect_upstreams-IsListed list_tools configs in
    let rest = connect_upstreams list_tools configs in
    if_either (λ x. All (IsListed list_tools) x.clients) config.is_stdio
      (with_tools config rest (list_tools config)) rest
      (with_tools-IsListed list_tools config rest (list_tools config) refl others) others

-- The tool of a client that the name of a call shows.
pub shown_tool :
    (client : UpstreamClient) (name tool : String) (listed : List Tool)
    → original_name client name ≡ tool
    → Lists client.config name listed
    → Any (λ t. (display_name client.config t ≡ name) × (t.name ≡ tool)) listed
shown_tool client name tool [] is_name h = absurd h
shown_tool client name tool (t ∷ ts) is_name (inl e) =
    inl (e, sym (original-display client t) ∙ ap (original_name client) e ∙ is_name)
shown_tool client name tool (t ∷ ts) is_name (inr h) =
    inr (shown_tool client name tool ts is_name h)
