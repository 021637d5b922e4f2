-- ===== src/Tools/Analysis.antt =====
-- apps/supervisor/src/lib/loop-analysis.ts and recovery-eval.ts without the texts.
use loopstorm_guard.Common.{
  ℕ, ◌-◌, String, Bool, false, not, ◌&&◌, ◌||◌, Option, none, some, List, [], ◌∷◌, map, filter,
  head?, get_last?, drop, take, length, any, all, ltb, is_some, str_eq, opt_str_eq, if◌then◌else◌,
}

-- An event as both see it; `args_hash`, which neither reads, is left out.
pub record TracedEvent : Type 0 where
  pub seq : ℕ
  pub event_type : String
  pub tool : Option String
  pub call_seq_fingerprint : Option String

abbrev is_type : String → TracedEvent → Bool
is_type event_type e = str_eq e.event_type event_type

-- `xs.slice(-n)`.
abbrev take_last : ℕ → List TracedEvent → List TracedEvent
take_last n xs = drop (length xs - n) xs

pub record LoopPattern : Type 0 where
  pub loop_seq : ℕ
  pub repeated_tools : List (Option String)
  pub recovered : Bool

abbrev is_call_before : ℕ → TracedEvent → Bool
is_call_before seq e = ltb e.seq seq && (is_type "policy_decision" e && is_some e.tool)

abbrev is_decision_after : ℕ → TracedEvent → Bool
is_decision_after seq e = ltb seq e.seq && is_type "policy_decision" e

abbrev fingerprint_of : Option TracedEvent → Option String
fingerprint_of none = none
fingerprint_of (some e) = e.call_seq_fingerprint

-- The last and the first fingerprint that are there.
abbrev last_fingerprint : List TracedEvent → Option String
last_fingerprint es = fingerprint_of (get_last? (filter (λ e. is_some e.call_seq_fingerprint) es))

abbrev first_fingerprint : List TracedEvent → Option String
first_fingerprint es = fingerprint_of (head? (filter (λ e. is_some e.call_seq_fingerprint) es))

abbrev differ : Option String → Option String → Bool
differ (some a) (some b) = not (str_eq a b)
differ (some a) none = false
differ none b = false

abbrev pub pattern_of : List TracedEvent → TracedEvent → LoopPattern
pattern_of events loop =
    let before = filter (is_call_before loop.seq) events in
    let after = filter (is_decision_after loop.seq) events in
    record {
      loop_seq = loop.seq;
      repeated_tools = map (λ e. e.tool) (take_last 6 before);
      recovered = differ (last_fingerprint before) (fingerprint_of (head? after));
    }

-- `analyzeLoopPattern`: a pattern for each loop that has been detected.
unfoldable pub analyze_loop_pattern : List TracedEvent → List LoopPattern
analyze_loop_pattern events = map (pattern_of events) (filter (is_type "loop_detected") events)

pub data RecoveryVerdict : Type 0 where
  effective : RecoveryVerdict
  ineffective : RecoveryVerdict
  partial : RecoveryVerdict
  insufficient_data : RecoveryVerdict

pub record RecoveryResult : Type 0 where
  pub intervention_seq : ℕ
  pub verdict : RecoveryVerdict
  pub pre_fingerprint : Option String
  pub post_fingerprint : Option String

-- `.filter(Boolean)`.
abbrev is_named : Option String → Bool
is_named none = false
is_named (some tool) = not (str_eq tool "")

abbrev tools_of : List TracedEvent → List (Option String)
tools_of es = filter is_named (map (λ e. e.tool) es)

abbrev covers : List (Option String) → List (Option String) → Bool
covers xs ys = all (λ x. any (opt_str_eq x) ys) xs

-- `.join(",")`, where null is the empty text.
abbrev shown : Option String → String
shown none = ""
shown (some tool) = tool

abbrev pub tools_changed : List TracedEvent → List TracedEvent → Bool
tools_changed pre post =
    not (covers (tools_of pre) (tools_of post)) || not (covers (tools_of post) (tools_of pre))

abbrev result : ℕ → RecoveryVerdict → Option String → Option String → RecoveryResult
result seq verdict pre post = record {
  intervention_seq = seq;
  verdict = verdict;
  pre_fingerprint = pre;
  post_fingerprint = post;
}

-- `join` is `Array.join(",")`.
abbrev pub compare_parts :
    (List String → String)
    → ℕ
    → List TracedEvent
    → List TracedEvent
    → Option String
    → Option String
    → RecoveryResult
compare_parts join seq pre post (some a) (some b) =
    if not (str_eq a b)
    then result seq effective (some a) (some b)
    else if tools_changed pre post
    then result seq partial (some a) (some b)
    else result seq ineffective (some a) (some b)
compare_parts join seq pre post a b =
    if not (str_eq (join (map (λ e. shown e.tool) pre)) (join (map (λ e. shown e.tool) post)))
    then result seq partial none none
    else result seq ineffective none none

abbrev compare_around :
    (List String → String) → ℕ → List TracedEvent → List TracedEvent → RecoveryResult
compare_around join seq [] post = result seq insufficient_data none none
compare_around join seq (e ∷ es) [] = result seq insufficient_data none none
compare_around join seq (e ∷ es) (f ∷ fs) =
    compare_parts join seq (e ∷ es) (f ∷ fs) (last_fingerprint (e ∷ es))
      (first_fingerprint (f ∷ fs))

-- `evaluateRecoveryEffectiveness`: five decisions before and five after the intervention.
unfoldable pub evaluate_recovery_effectiveness :
    (List String → String) → List TracedEvent → ℕ → RecoveryResult
evaluate_recovery_effectiveness join events seq =
    let decisions = filter (is_type "policy_decision") events in
    compare_around join seq (take_last 5 (filter (λ e. ltb e.seq seq) decisions))
      (take 5 (filter (λ e. ltb seq e.seq) decisions))
