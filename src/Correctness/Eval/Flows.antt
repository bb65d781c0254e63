-- ===== src/Correctness/Eval/Flows.antt =====
-- The evaluators that follow the exchanges with the peer (correctness/eval.go); here the handshake.
-- `overlays` are the blobs that hold the sandboxes' stores (correctness/overlay.go).
pub mod Commands
pub mod Pushes
pub mod Pulls
pub mod Builtin
use Prim.Native.String.{◌++◌}
use ocpi_mock_hub.Prelude.{
  ℕ, String, Option, none, some, List, [], ◌∷◌, ◌++◌ as ◌++ₗ◌, Bool, true, false, ◌&&◌, ◌||◌, not,
  ◌==ₛ◌, ltb, if◌then◌else◌, ◌>>=◌, or_else, length, Dict, lookup, trim_space, trim_slashes,
  equal_fold, contains, ends_with, join,
}
use text.Mathlib.Text.{starts_with}
use ocpi_mock_hub.Json.{Fields, Bytes, read_string, unmarshal}
use ocpi_mock_hub.Auth.{Base64}
use ocpi_mock_hub.Store.{bytes_or_nil, text_or_empty}
use ocpi_mock_hub.Overlay.{OverlayState}
use ocpi_mock_hub.Overlay.Instance.{overlay_store}
use ocpi_mock_hub.Overlay.Scoped.{overlay_at, overlay_blob_key}
use ocpi_mock_hub.Correctness.Types.{
  TrafficEvent, ActionState, CaseDefinition, CaseEvaluation, SessionRuntime,
}
use ocpi_mock_hub.Correctness.Eval.{
  Tools, pending_eval, failed_eval, passed_eval, judge, await, when,
}
use ocpi_mock_hub.Correctness.Eval.Window.{
  action_gate, pass_gate, window_events, filter_direction, first_matching_event, nth_matching_event,
  event_started_before,
}
use ocpi_mock_hub.Correctness.Eval.Requests.{
  validate_request_auth, validate_inbound_ocpi_request, validate_request_auth_matches_token,
  validate_json_content_type, validate_response_time, validate_http_success_status,
}
use ocpi_mock_hub.Correctness.Eval.Responses.{
  validate_ocpi_envelope_response, validate_authorization_envelope,
}
use ocpi_mock_hub.Correctness.Eval.Responses.Discovery.{
  validate_versions_envelope, validate_version_details_envelope, validate_credentials_envelope,
  validate_delete_credentials_envelope,
}
use ocpi_mock_hub.Correctness.Eval.Payloads.{expected_value}
use ocpi_mock_hub.Correctness.Eval.Payloads.Authorize.{validate_authorize_request}
use ocpi_mock_hub.Correctness.Eval.Payloads.Commands.{
  validate_command_payload, validate_start_session_expectations,
}
use ocpi_mock_hub.Correctness.Eval.Payloads.Records.{
  validate_location_patch_payload, validate_session_payload, validate_cdr_payload,
}
use ocpi_mock_hub.Correctness.Eval.Payloads.Tokens.{
  validate_token_payload, token_push_pending_message,
}

module _ (base64 : Base64) (tools : Tools) (overlays : Dict OverlayState) where
  -- the state of rt.sandbox.Store
  unfoldable pub sandbox_state : SessionRuntime → OverlayState
  unfolding overlay_at overlay_blob_key
  sandbox_state rt = overlay_at (overlay_blob_key rt.session.id) overlays

  -- the checks of one request of the handshake, but for its content type and envelope
  unfoldable pub handshake_request_issues : SessionRuntime → TrafficEvent → List String
  unfolding validate_request_auth validate_request_auth_matches_token
  handshake_request_issues rt e =
      validate_request_auth e
      ++ₗ validate_request_auth_matches_token base64 e rt.session.config.peer_token
          "configured peer token for this session"

  unfoldable pub handshake_issues :
      SessionRuntime → TrafficEvent → TrafficEvent → TrafficEvent → List String
  unfolding handshake_request_issues validate_response_time validate_versions_envelope
      validate_version_details_envelope validate_json_content_type validate_credentials_envelope
  handshake_issues rt versions details post =
      handshake_request_issues rt versions
      ++ₗ validate_response_time tools versions 2000
      ++ₗ validate_versions_envelope tools versions
      ++ₗ handshake_request_issues rt details
      ++ₗ validate_response_time tools details 2000
      ++ₗ validate_version_details_envelope tools details
      ++ₗ handshake_request_issues rt post
      ++ₗ validate_json_content_type post
      ++ₗ validate_response_time tools post 2000
      ++ₗ validate_credentials_envelope tools post

  abbrev pub is_method : String → TrafficEvent → Bool
  is_method method e = e.method ==ₛ method

  abbrev pub is_get : String → TrafficEvent → Bool
  is_get path e = (e.method ==ₛ "GET") && (e.path ==ₛ path)

  unfoldable pub judge_handshake : SessionRuntime → List TrafficEvent → CaseEvaluation
  judge_handshake rt events =
      let waiting = pending_eval "Handshake traffic has not completed yet." [] in
      await (first_matching_event (is_method "GET") events) waiting λ versions.
        await (nth_matching_event 2 (is_method "GET") events) waiting λ details.
          await (first_matching_event (is_method "POST") events) waiting λ post.
            judge "Handshake checks failed." (handshake_issues rt versions details post)
              "The peer completed the OCPI versions, version details, and credentials exchange with valid response envelopes and timing."
              (versions ∷ details ∷ post ∷ [])

  unfoldable pub eval_handshake_flow : SessionRuntime → CaseEvaluation
  eval_handshake_flow rt = pass_gate (action_gate rt "run_handshake") λ action.
      let events = filter_direction (window_events rt action.id) "outbound" in
      if ltb (length events) 3
      then pending_eval
          "Waiting for the outbound versions, version details, and credentials exchange traffic." []
      else judge_handshake rt events

  unfoldable pub discovery_issues : SessionRuntime → TrafficEvent → String → List String
  unfolding validate_inbound_ocpi_request validate_request_auth_matches_token
      validate_http_success_status sandbox_state
  discovery_issues rt e label =
      validate_inbound_ocpi_request e
      ++ₗ validate_request_auth_matches_token base64 e
          (text_or_empty (overlay_store.get_token_b (sandbox_state rt)))
          "session Token B returned by the hub"
      ++ₗ validate_http_success_status tools e label

  unfoldable pub judge_details : SessionRuntime → List TrafficEvent → TrafficEvent → CaseEvaluation
  judge_details rt events versions =
      await (first_matching_event (is_get "/ocpi/2.2.1") events)
        (pending_eval
          "Waiting for the peer to fetch the mock hub version details endpoint after reading /ocpi/versions."
          (versions ∷ []))
        λ details.
          judge
            "The peer did not complete the expected follow-up discovery calls to the mock hub after the credentials exchange."
            (discovery_issues rt details "GET /ocpi/2.2.1"
              ++ₗ when (not (event_started_before tools versions details))
                  "The peer requested /ocpi/2.2.1 before first fetching /ocpi/versions.")
            "The peer fetched the mock hub versions and version details endpoints using the session token returned by the credentials exchange."
            (versions ∷ details ∷ [])

  -- the check of the first request, which fails at once or goes on to the second
  unfoldable pub judge_versions :
      SessionRuntime → List TrafficEvent → TrafficEvent → List String → CaseEvaluation
  judge_versions rt events versions [] = judge_details rt events versions
  judge_versions rt events versions (issue ∷ issues) =
      failed_eval
        "The peer did not fetch the mock hub versions endpoint with the expected session token."
        (issue ∷ issues) (versions ∷ [])

  unfoldable pub eval_peer_fetches_hub_versions : SessionRuntime → CaseEvaluation
  eval_peer_fetches_hub_versions rt = pass_gate (action_gate rt "run_handshake") λ action.
      let events = filter_direction (window_events rt action.id) "inbound" in
      await (first_matching_event (is_get "/ocpi/versions") events)
        (pending_eval
          "Waiting for the peer to fetch the mock hub versions endpoint with the session token returned by the credentials exchange."
          [])
        λ versions.
          judge_versions rt events versions (discovery_issues rt versions "GET /ocpi/versions")
