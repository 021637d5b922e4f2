-- ===== src/Tools/Refused.antt =====
-- Events of the supervisor that the schema of `emitEvent` does not accept.
use loopstorm_guard.Common.{
  Bool-cases, str_eq, ◌≡◌, ◌⊎◌, inl, inr, refl, String, false, Option, none, some, List, [], ◌∷◌,
  Any,
}
use loopstorm_guard.Json.{get_field, Json, null, undefined, obj, Fields, end, field}
use loopstorm_guard.Ingest.Store.{Db}
use loopstorm_guard.Session.Events.{SessionParams, Emitted, payload}
use loopstorm_guard.Session.Calls.{escalation_event, proposal_event}
use loopstorm_guard.Tools.Schema.{
  may_have, integer, any_text, Formats, Member, emit_schema, fits, check_member, parse_members,
}
use loopstorm_guard.Tools.Emit.{append_fields, hashes_of, bad_request, receive_event, request_body}

-- A member of the schema that is null, though its kind has no null.
abbrev IsBadNull : Formats → Fields → Member → Type 0
IsBadNull z fs m = (get_field m.name fs ≡ null) × (fits z m.kind null ≡ false)

check_member-null :
    (z : Formats) (m : Member) (rest : Option Fields)
    → fits z m.kind null ≡ false
    → check_member z m null rest ≡ none
unfolding check_member
check_member-null z m none h = refl
check_member-null z m (some rest) h = rw (h) refl

check_member-none : (z : Formats) (m : Member) (value : Json) → check_member z m value none ≡ none
unfolding check_member
check_member-none z m value = refl

parse_members-null :
    (z : Formats) (ms : List Member) (fs : Fields)
    → Any (IsBadNull z fs) ms
    → parse_members z ms fs ≡ none
unfolding parse_members
parse_members-null z [] fs h = absurd h
parse_members-null z (m ∷ ms) fs (inl (is_null, bad)) =
    rw (is_null) (check_member-null z m (parse_members z ms fs) bad)
parse_members-null z (m ∷ ms) fs (inr h) =
    rw (parse_members-null z ms fs h) (check_member-none z m (get_field m.name fs))

refused_null :
    (z : Formats) (scopes : List String) (tenant_id : String) (fs : Fields) (db : Db)
    → Any (IsBadNull z fs) emit_schema
    → receive_event z scopes tenant_id (obj fs) db ≡ (db, bad_request)
unfolding receive_event
refused_null z scopes tenant_id fs db h =
    rw (receive_event, parse_members-null z emit_schema fs h) refl

get_field-append :
    (name : String) (fs rest : Fields)
    → get_field name fs ≡ null
    → get_field name (append_fields fs rest) ≡ null
get_field-append name end rest h = cc
get_field-append name (field k v fs) rest h = elim (Bool-cases (str_eq k name)) [
  | inl e ↦ rw (e) (rw (e) at h)
  | inr e ↦ rw (e) (get_field-append name fs rest (rw (e) at h))
]

abbrev fields_of : Json → Fields
fields_of (obj fs) = fs
fields_of value = end

-- The event that a session sends after an escalation is refused with `BAD_REQUEST`, and nothing is
-- stored, when the input of the tool has no `timeout_seconds`; so is the one after a proposal when
-- the input has no `target_agent`: both members are sent as null.
pub created_event-refused :
    (z : Formats) (scopes : List String) (tenant_id : String) (db : Db) (w : SessionParams)
    (e : Emitted) (proposal_type : String) (input : Fields)
    → ((e.event.extra ≡ escalation_event w (obj input))
        × (get_field "timeout_seconds" input ≡ undefined))
      ⊎ ((e.event.extra ≡ proposal_event w proposal_type (obj input))
          × (get_field "target_agent" input ≡ undefined))
    → receive_event z scopes tenant_id (request_body w e) db ≡ (db, bad_request)
unfolding payload fits
created_event-refused z scopes tenant_id db w e proposal_type input (inl (is_extra, absent)) =
    let sent = fields_of (request_body w e) in
    let bad : IsBadNull z sent (may_have "timeout_seconds" integer) = (
      get_field-append "timeout_seconds" e.event.extra (hashes_of e) (rw (is_extra, absent) refl),
      refl,
    ) in
    refused_null z scopes tenant_id sent db (search (inl, inr, bad) depth 30)
created_event-refused z scopes tenant_id db w e proposal_type input (inr (is_extra, absent)) =
    let sent = fields_of (request_body w e) in
    let bad : IsBadNull z sent (may_have "target_agent" any_text) = (
      get_field-append "target_agent" e.event.extra (hashes_of e) (rw (is_extra, absent) refl),
      refl,
    ) in
    refused_null z scopes tenant_id sent db (search (inl, inr, bad) depth 30)
