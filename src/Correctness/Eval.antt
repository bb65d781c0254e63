-- ===== src/Correctness/Eval.antt =====
-- The evaluators of the built-in cases (correctness/eval.go): each reads the traffic that was recorded
-- while its action ran, and gives a verdict. Here are the verdicts, the readers of headers and JSON,
-- and the record of what comes from Go's libraries.
pub mod Window
pub mod Requests
pub mod Responses
pub mod Payloads
pub mod Flows
pub mod Verdicts
pub mod Passed
use Prim.Native.String.{◌++◌}
use ocpi_mock_hub.Prelude.{
  ℕ, String, Option, none, some, List, [], ◌∷◌, Bool, true, false, ◌&&◌, ◌||◌, not, ◌==ₛ◌,
  if◌then◌else◌, or_else, ℤ, Dict, lookup, has, map, to_lower, trim_space, contains,
}
use ocpi_mock_hub.Json.{
  Json, null, str, arr, obj, Items, nil, cons, Fields, end, Bytes, MapResult, map_error, nil_map,
  map_ok, unmarshal_map, get, to_map,
}
use ocpi_mock_hub.Correctness.Types.{
  TrafficEvent, CheckpointState, CaseResult, CaseEvaluation, SessionRuntime,
}

-- OCPIEnvelope; Data is nil where the member is missing
pub record OcpiEnvelope : Type 0 where
  pub payload : Option Json
  pub status_code : ℤ
  pub status_message : String
  pub timestamp : String

-- a time.Time: nanoseconds since a fixed instant, and the offset of its zone
pub record Stamp : Type 0 where
  pub instant : ℕ
  pub offset : ℤ

pub record ParsedUrl : Type 0 where
  pub scheme : String
  pub host : String
  pub hostname : String
  pub query_value : String → String

-- What comes from Go's libraries. A function that returns an error gives `none`.
pub record Tools : Type 0 where
  -- the document that a text is, and json.Unmarshal of it into an OCPIEnvelope
  pub parse_json : String → Bytes
  pub read_envelope : String → Option OcpiEnvelope
  -- fmt's %v of a decoded value other than nil and strings, %d, and %q
  pub format_value : Json → String
  pub format_int : ℤ → String
  pub quote : String → String
  pub atoi : String → Option ℤ
  -- time.Parse(layout, value) and url.Parse
  pub parse_time : String → String → Option Stamp
  pub parse_url : String → Option ParsedUrl
  -- url.ParseQuery(query), then Get(key)
  pub query_value : String → String → String
  -- net.ParseIP(host) is an address, and IsLoopback
  pub is_loopback : String → Bool
  -- the submatch of <([^>]+)>
  pub link_target : String → Option String
  -- sort.Slice by a comparison
  pub sort_slice : (TrafficEvent → TrafficEvent → Bool) → List TrafficEvent → List TrafficEvent

-- headerValue
unfoldable pub header_value : Dict String → String → String
unfolding to_lower
header_value headers key = or_else (lookup (to_lower key) headers) ""

-- uniqueStrings, whose loop keeps the texts that it has seen
unfoldable pub unique_from : List String → List String → List String
unique_from seen [] = []
unique_from seen (v ∷ vs) =
    let skipped = unique_from seen vs in
    let kept = unique_from (v ∷ seen) vs in
    if v ==ₛ "" then skipped else if has v seen then skipped else v ∷ kept

unfoldable pub unique_strings : List String → List String
unfolding unique_from
unique_strings values = unique_from [] values

unfoldable pub collect_event_ids : List TrafficEvent → List String
collect_event_ids [] = []
collect_event_ids (e ∷ es) =
    let rest = collect_event_ids es in if e.id ==ₛ "" then rest else e.id ∷ rest

unfoldable pub passed_eval : String → List TrafficEvent → CaseEvaluation
unfolding collect_event_ids
passed_eval message events = record {
  status = "passed";
  messages = message ∷ [];
  evidence_event_ids = collect_event_ids events;
}

-- pendingEval, and pendingEvalWithEvidence where there are events
unfoldable pub pending_eval : String → List TrafficEvent → CaseEvaluation
unfolding collect_event_ids
pending_eval message events = record {
  status = "pending";
  messages = message ∷ [];
  evidence_event_ids = collect_event_ids events;
}

unfoldable pub failed_eval : String → List String → List TrafficEvent → CaseEvaluation
unfolding unique_strings collect_event_ids
failed_eval intro issues events = record {
  status = "failed";
  messages = unique_strings (intro ∷ issues);
  evidence_event_ids = collect_event_ids events;
}

-- `if len(issues) > 0 { return failedEval(…) }; return passedEval(…)`
unfoldable pub judge : String → List String → String → List TrafficEvent → CaseEvaluation
unfolding failed_eval passed_eval
judge intro [] message events = passed_eval message events
judge intro (issue ∷ issues) message events = failed_eval intro (issue ∷ issues) events

-- a call that gives nil where it finds no event
unfoldable pub await :
    Option TrafficEvent → CaseEvaluation → (TrafficEvent → CaseEvaluation) → CaseEvaluation
await none waiting found = waiting
await (some event) waiting found = found event

unfoldable pub await_some :
    List TrafficEvent → CaseEvaluation → (List TrafficEvent → CaseEvaluation) → CaseEvaluation
await_some [] waiting found = waiting
await_some (e ∷ es) waiting found = found (e ∷ es)

-- checkpointState
unfoldable pub find_checkpoint : String → List CheckpointState → Option CheckpointState
find_checkpoint id [] = none
find_checkpoint id (cp ∷ cps) =
    let rest = find_checkpoint id cps in if cp.id ==ₛ id then some cp else rest

unfoldable pub checkpoint_in : String → Option CaseResult → Option CheckpointState
unfolding find_checkpoint
checkpoint_in id none = none
checkpoint_in id (some result) = find_checkpoint id result.checkpoints

unfoldable pub checkpoint_state : SessionRuntime → String → String → Option CheckpointState
unfolding checkpoint_in
checkpoint_state rt case_id id = checkpoint_in id (lookup case_id rt.cases)

unfoldable pub manual_eval : String → List TrafficEvent → CaseEvaluation
unfolding collect_event_ids
manual_eval intro events = record {
  status = "manual";
  messages = intro ∷ [];
  evidence_event_ids = collect_event_ids events;
}

-- manualOrPassed, from the answer on
unfoldable pub answered_eval : String → String → List TrafficEvent → CaseEvaluation
unfolding manual_eval collect_event_ids contains to_lower trim_space
answered_eval answer intro events =
    let lowered = to_lower (trim_space answer) in
    if trim_space answer ==ₛ ""
    then manual_eval intro events
    else if contains lowered "still present" || contains lowered "not removed"
    then record {
      status = "failed";
      messages =
          "The manual checkpoint indicates the eMSP side did not reflect the expected deletion semantics."
          ∷ [];
      evidence_event_ids = collect_event_ids events;
    }
    else record {
      status = "passed";
      messages = intro ∷ ("Manual checkpoint answer recorded: " ++ answer) ∷ [];
      evidence_event_ids = collect_event_ids events;
    }

unfoldable pub manual_or_passed :
    Option CheckpointState → String → List TrafficEvent → CaseEvaluation
unfolding answered_eval
manual_or_passed none intro events = manual_eval intro events
manual_or_passed (some checkpoint) intro events = answered_eval checkpoint.answer intro events

-- stringValue, of a map's member as well
unfoldable pub string_value : Tools → Option Json → String
string_value tools none = ""
string_value tools (some null) = ""
string_value tools (some (str s)) = s
string_value tools (some j) = tools.format_value j

-- anySlice
unfoldable pub any_slice : Option Json → Items
any_slice (some (arr items)) = items
any_slice _ = nil

-- `m, _ := value.(map[string]any)`, whose members are all missing where it is nil
unfoldable pub members_of : Json → Fields
members_of (obj fs) = fs
members_of _ = end

-- json.Unmarshal into a map[string]any that is only read
abbrev pub to_members : MapResult → Option Fields
to_members map_error = none
to_members nil_map = some end
to_members (map_ok fs) = some fs

unfoldable pub body_members : Tools → String → Option Fields
body_members tools body = to_members (unmarshal_map (tools.parse_json body))

-- Data is a document, or nil, which json.Unmarshal refuses
unfoldable pub payload_members : Option Json → Option Fields
payload_members none = none
payload_members (some j) = to_members (to_map j)

-- `value == nil` of a map's member
unfoldable pub is_null_member : Option Json → Bool
is_null_member none = true
is_null_member (some null) = true
is_null_member (some j) = false

unfoldable pub when : Bool → String → List String
when b issue = if b then issue ∷ [] else []
