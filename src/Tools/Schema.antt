-- ===== src/Tools/Schema.antt =====
-- The schema of the input of `supervisorTools.emitEvent`, and how zod parses an object with it. What
-- zod tests of the contents of a text or a number is an argument.
use loopstorm_guard.Common.{
  ℕ, String, Bool, true, false, not, ◌&&◌, Option, none, some, List, [], ◌∷◌, ◌==◌, leb, str_eq,
  if◌then◌else◌,
}
use loopstorm_guard.Json.{
  get_field, Json, null, undefined, number, str, arr, obj, Items, nil, cons, Fields, end, field,
}
use loopstorm_guard.Session.Sanitize.{text_length}

-- `z.string().uuid()` and `datetime()` of a text, and the whole number that the text of a number
-- stands for.
pub record Formats : Type 0 where
  pub is_uuid : String → Bool
  pub is_datetime : String → Bool
  pub is_integer : String → Bool
  pub value_of : String → ℕ

-- The kinds of members.
pub data Kind : Type 0 where
  uuid : Kind
  one : Kind
  non_empty : Kind
  positive : Kind
  datetime : Kind
  digest : Kind
  nullable_digest : Kind
  any_text : Kind
  any_number : Kind
  integer : Kind
  texts : Kind

abbrev all_texts : Items → Bool
all_texts nil = true
all_texts (cons (str s) xs) = all_texts xs
all_texts (cons x xs) = false

abbrev is_digest : String → Bool
is_digest s = text_length s == 64

-- Whether a member that is there has the kind.
unfoldable pub fits : Formats → Kind → Json → Bool
unfolding text_length
fits z uuid (str s) = z.is_uuid s
fits z one (number n) = str_eq n "1"
fits z non_empty (str s) = not (str_eq s "")
fits z positive (number n) = z.is_integer n && leb 1 (z.value_of n)
fits z datetime (str s) = z.is_datetime s
fits z digest (str s) = is_digest s
fits z nullable_digest (str s) = is_digest s
fits z nullable_digest null = true
fits z any_text (str s) = true
fits z any_number (number n) = true
fits z integer (number n) = z.is_integer n
fits z texts (arr xs) = all_texts xs
fits z kind value = false

pub record Member : Type 0 where
  pub name : String
  pub is_optional : Bool
  pub kind : Kind

abbrev needs : String → Kind → Member
needs name kind = record { name = name; is_optional = false; kind = kind }

abbrev pub may_have : String → Kind → Member
may_have name kind = record { name = name; is_optional = true; kind = kind }

abbrev pub emit_schema : List Member
emit_schema =
    needs "run_id" uuid
    ∷ needs "schema_version" one
    ∷ needs "event_type" non_empty
    ∷ needs "seq" positive
    ∷ needs "ts" datetime
    ∷ needs "hash" digest
    ∷ needs "hash_prev" nullable_digest
    ∷ may_have "agent_name" any_text
    ∷ may_have "supervisor_run_id" any_text
    ∷ may_have "trigger" any_text
    ∷ may_have "trigger_run_id" any_text
    ∷ may_have "proposal_id" any_text
    ∷ may_have "proposal_type" any_text
    ∷ may_have "target_agent" any_text
    ∷ may_have "rationale" any_text
    ∷ may_have "confidence" any_number
    ∷ may_have "supporting_runs" texts
    ∷ may_have "status" any_text
    ∷ may_have "escalation_id" any_text
    ∷ may_have "severity" any_text
    ∷ may_have "recommendation" any_text
    ∷ may_have "timeout_seconds" integer
    ∷ may_have "timeout_action" any_text
    ∷ []

-- The members of the schema that are there, in its order; `none` where one does not fit.
unfoldable pub check_member : Formats → Member → Json → Option Fields → Option Fields
check_member z m value none = none
check_member z m undefined (some rest) = if m.is_optional then some rest else none
check_member z m value (some rest) =
    if fits z m.kind value then some (field m.name value rest) else none

unfoldable pub parse_members : Formats → List Member → Fields → Option Fields
parse_members z [] fs = some end
parse_members z (m ∷ ms) fs = check_member z m (get_field m.name fs) (parse_members z ms fs)

abbrev pub parse_emit : Formats → Json → Option Fields
parse_emit z (obj fs) = parse_members z emit_schema fs
parse_emit z body = none
