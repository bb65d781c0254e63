-- ===== src/Examples/Evaluators.antt =====
-- The theorems on the evaluators and the built-in suite at concrete inputs: a session in which the peer
-- pulled two pages of locations, and then answered a real-time authorization.
use mathlib.Core.List.{Mem, mem-cons_self, mem-cons_of_mem}
use ocpi_mock_hub.Prelude.{
  put, Bool-cases, inl, inr, eq_iff, ◌≤◌, String, ◌≡◌, refl, none, some, List, [], ◌∷◌, true, false,
  ◌&&◌, ◌==ₛ◌, if◌then◌else◌, Dict, lookup, ends_with, contains, pos, values, arith,
}
use ocpi_mock_hub.Json.{get, str, obj, field, end, no_bytes}
use ocpi_mock_hub.Correctness.Types.{
  TrafficEvent, ActionState, CaseDefinition, SessionConfig, SessionRuntime, Manager, no_action,
  no_case,
}
use ocpi_mock_hub.Correctness.Manager.{new_runtime}
use ocpi_mock_hub.Correctness.Rebuild.{rebuild_session, rebuilt_case}
use ocpi_mock_hub.Correctness.Eval.{Tools, OcpiEnvelope, await, await_some, judge, when}
use ocpi_mock_hub.Correctness.Eval.Window.{
  pass_gate, action_gate, window_events, filter_direction, first_matching_event,
  matching_inbound_list_events,
}
use ocpi_mock_hub.Correctness.Eval.Window.Exact.{select, is_in_window, window_events-select}
use ocpi_mock_hub.Correctness.Eval.Requests.{
  validate_request_auth, validate_json_content_type, parse_ocpi_date_time, utc,
  validate_response_time,
}
use ocpi_mock_hub.Correctness.Eval.Requests.Pages.{validate_paginated_requests}
use ocpi_mock_hub.Correctness.Eval.Responses.{
  authorization_issues, checked, decoded_envelope, envelope_issues, is_invalid_status,
  parse_envelope, validate_authorization_envelope,
}
use ocpi_mock_hub.Correctness.Eval.Payloads.{expected_value}
use ocpi_mock_hub.Correctness.Eval.Payloads.Authorize.{
  validate_authorize_request, authorize_location_issues,
}
use ocpi_mock_hub.Correctness.Eval.Flows.Builtin.{
  action_of, pull_locations_full, run_evaluator, builtin_evaluators,
}
use ocpi_mock_hub.Correctness.Eval.Flows.Pulls.{updated_issues, eval_inbound_paginated_pull}
use ocpi_mock_hub.Correctness.Eval.Flows.Pushes.{eval_outbound, eval_outbound_authorize}
use ocpi_mock_hub.Correctness.Eval.Verdicts.{SortKeeps, AreOwn, IsVerdict}
use ocpi_mock_hub.Correctness.Eval.Verdicts.Builtin.{run_evaluator-IsVerdict}
use ocpi_mock_hub.Correctness.Eval.Passed.Pulls.{is_walk, eval_inbound_paginated_pull-walk}
use ocpi_mock_hub.Correctness.Eval.Passed.Authorize.{answers, eval_outbound_authorize-answers}
use ocpi_mock_hub.Correctness.Suite.{builtin_suite, builtin_suites, suite_map}
use ocpi_mock_hub.Correctness.Suite.Rows.{case_row, scenario, normative}
use ocpi_mock_hub.Correctness.Suite.Backed.{are_backed}
use ocpi_mock_hub.Correctness.Suite.Reachable.{registered_suites, reachable-backed}
use ocpi_mock_hub.Correctness.Manager.Reachable.{
  start, apply_op, after, is_fresh, IsReachable, created, stepped, new_manager,
}
use ocpi_mock_hub.Correctness.Suite.Coherent.{IsEarned, rebuilt_case-IsEarned}
use ocpi_mock_hub.Examples.Worlds.{base64, seed}

abbrev allowed : OcpiEnvelope
allowed = record {
  payload = some (
      obj (
        field "allowed" (str "ALLOWED")
          (field "token" (obj end) (field "authorization_reference" (str "r1") end))));
  status_code = pos 1000;
  status_message = "";
  timestamp = "t0";
}

-- libraries that know the texts of the session
abbrev tools : Tools
tools = record {
  parse_json = λ s. no_bytes;
  read_envelope = λ s. if s ==ₛ "allowed" then some allowed else none;
  format_value = λ v. "";
  format_int = λ n. "";
  quote = λ s. s;
  atoi = λ s. if s ==ₛ "2" then some (pos 2) else none;
  parse_time =
      λ layout s. if s ==ₛ "t0" then some (record { instant = 0; offset = pos 0 }) else none;
  parse_url = λ s. some (record {
    scheme = "https";
    host = s;
    hostname = s;
    query_value = λ k. if k ==ₛ "offset" then "2" else "";
  });
  query_value = λ q k. if (q ==ₛ "offset=2") && (k ==ₛ "offset") then "2" else "";
  is_loopback = λ s. false;
  link_target = λ s. some s;
  sort_slice = λ less es. es;
}

tools-SortKeeps : SortKeeps tools
tools-SortKeeps less p es h = h

abbrev headers : Dict String
headers =
    ("authorization", "Token tok")
    ∷ ("content-type", "application/json")
    ∷ ("x-request-id", "1")
    ∷ ("x-correlation-id", "1")
    ∷ ("ocpi-from-country-code", "NL")
    ∷ ("ocpi-from-party-id", "TNM")
    ∷ []

abbrev pull : String → String → Dict String → TrafficEvent
pull id raw_query response_headers = record {
  id = id;
  session_id = "CTS-u1";
  action_id = "";
  direction = "inbound";
  method = "GET";
  url = "";
  path = "/ocpi/2.2.1/sender/locations";
  raw_query = raw_query;
  request_headers = headers;
  request_body = "";
  response_status = 200;
  response_headers = response_headers;
  response_body = "";
  duration_ms = 3;
  started_at = "t0";
}

abbrev answered_event : TrafficEvent
answered_event = record (pull "e3" "" []) {
  action_id = "run_rta_valid";
  direction = "outbound";
  method = "POST";
  path = "/tokens/NL/TNM/u1/authorize";
  response_body = "allowed";
}

abbrev events : List TrafficEvent
events = pull "e1" "" (("link", "next") ∷ []) ∷ pull "e2" "offset=2" [] ∷ answered_event ∷ []

abbrev pulling : ActionState
pulling = record no_action { id = "arm_pull_locations_full"; status = "armed"; last_run_at = "t0" }

abbrev authorizing : ActionState
authorizing = record no_action {
  id = "run_rta_valid";
  status = "completed";
  last_run_at = "t1";
  event_anchor = 2;
}

abbrev config : SessionConfig
config = record { suite_id = ""; name = ""; peer_versions_url = ""; peer_token = "tok" }

-- the handshake's cases were passed before
abbrev runtime : SessionRuntime
runtime = record (new_runtime "CTS-u1" "t0" builtin_suite seed config) {
  actions = ("arm_pull_locations_full", pulling) ∷ ("run_rta_valid", authorizing) ∷ [];
  cases = ("peer_fetches_hub_versions", record no_case { status = "passed" }) ∷ [];
  events = events;
}

-- the third case of the suite, as the source writes it
abbrev pull_case : CaseDefinition
pull_case =
    case_row "pull_locations_full" "Locations Pull" "Full Locations Pull"
      "Validate the full pull request, request headers, and pagination sequence for the Locations sender endpoint."
      "pull_locations_full" ("arm_pull_locations_full" ∷ []) ("peer_fetches_hub_versions" ∷ []) []
      (scenario "Pull Locations ToIOP"
          ("Pull_Locations_1" ∷ "Pull_Locations_3" ∷ "Pull_Locations_4" ∷ [])
        ∷ [])
      (normative "transport-auth" "transport_and_format#authorization" "Authorization Header"
        ∷ normative "transport-pagination" "transport_and_format#pagination" "Pagination"
        ∷ normative "locations-sender" "mod_locations" "Locations Sender Interface"
        ∷ [])

pull_case-Mem : Mem pull_case builtin_suite.cases
unfolding builtin_suite
pull_case-Mem = mem-cons_of_mem _ (mem-cons_of_mem _ mem-cons_self)

runtime-AreOwn : AreOwn runtime
unfolding lookup
runtime-AreOwn id a h = elim (Bool-cases ("arm_pull_locations_full" ==ₛ id)) [
  | inl e ↦ ground (arith, e, h, eq_iff "arm_pull_locations_full" id)
  | inr e ↦ ground (arith, e, h, eq_iff "run_rta_valid" id)
]

window_events-select_example :
    window_events runtime "arm_pull_locations_full"
    ≡ select (is_in_window "arm_pull_locations_full" 0 (values runtime.actions)) 0 runtime.events
unfolding lookup new_runtime
window_events-select_example =
    window_events-select runtime "arm_pull_locations_full" pulling refl (omega arith)

run_evaluator-IsVerdict_example :
    IsVerdict runtime "arm_pull_locations_full"
      (run_evaluator base64 tools [] pull_locations_full runtime pull_case)
unfolding action_of
run_evaluator-IsVerdict_example =
    run_evaluator-IsVerdict base64 tools [] tools-SortKeeps runtime runtime-AreOwn pull_case
      pull_locations_full

eval_inbound_paginated_pull-walk_example :
    (a : ActionState) × (lookup "arm_pull_locations_full" runtime.actions ≡ some a)
    × (is_walk tools false none
          (matching_inbound_list_events tools runtime a.id "/ocpi/2.2.1/sender/locations")
        ≡ true)
unfolding eval_inbound_paginated_pull pass_gate action_gate lookup await_some
    matching_inbound_list_events window_events values judge validate_paginated_requests
    updated_issues
eval_inbound_paginated_pull-walk_example =
    eval_inbound_paginated_pull-walk tools runtime "arm_pull_locations_full"
      "/ocpi/2.2.1/sender/locations" false "" "" refl

eval_outbound_authorize-answers_example :
    (a : ActionState) × (e : TrafficEvent) × (lookup "run_rta_valid" runtime.actions ≡ some a)
    × (first_matching_event
          (λ e. (e.method ==ₛ "POST") && ends_with e.path "/authorize")
          (filter_direction (window_events runtime a.id) "outbound")
        ≡ some e)
    × (e.duration_ms ≤ 2000)
    × (answers tools true (tools.read_envelope e.response_body) ≡ true)
unfolding eval_outbound_authorize eval_outbound pass_gate action_gate lookup await
    first_matching_event filter_direction window_events values ends_with judge validate_request_auth
    when validate_json_content_type contains validate_authorize_request authorize_location_issues
    expected_value parse_ocpi_date_time utc validate_response_time authorization_issues checked
    decoded_envelope envelope_issues is_invalid_status parse_envelope
    validate_authorization_envelope get
eval_outbound_authorize-answers_example =
    eval_outbound_authorize-answers base64 tools [] runtime "run_rta_valid" true refl

abbrev started_session : SessionRuntime
started_session =
    rebuild_session (builtin_evaluators base64 tools []) "t1"
      (new_runtime "CTS-u1" "t0" builtin_suite seed config)

abbrev started_manager : Manager
started_manager =
    let m = new_manager seed registered_suites in
    after m (apply_op (builtin_evaluators base64 tools []) (start "u1" "t0" "t1" config) m)

started-IsReachable :
    IsReachable (builtin_evaluators base64 tools []) seed registered_suites started_manager
unfolding is_fresh lookup
started-IsReachable = stepped (start "u1" "t0" "t1" config) created refl

reachable-backed_example :
    (started_session.suite ≡ builtin_suite)
    × (are_backed started_session started_session.suite.cases started_session.session.cases ≡ true)
unfolding apply_op lookup put suite_map builtin_suites
reachable-backed_example =
    reachable-backed base64 tools [] tools-SortKeeps seed started_manager started-IsReachable
      "CTS-u1" started_session refl

rebuilt_case-IsEarned_example :
    IsEarned runtime pull_case
      (rebuilt_case (builtin_evaluators base64 tools []) "t2" runtime pull_case)
unfolding rebuilt_case lookup builtin_evaluators eval_inbound_paginated_pull pass_gate action_gate
    await_some matching_inbound_list_events window_events values judge validate_paginated_requests
    updated_issues
rebuilt_case-IsEarned_example =
    rebuilt_case-IsEarned base64 tools [] tools-SortKeeps runtime runtime-AreOwn pull_case "t2"
      pull_case-Mem refl
