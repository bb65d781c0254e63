-- ===== src/Correctness/Eval/Flows/Pushes.antt =====
-- The evaluators of one pushed object (correctness/eval.go): outbound to the peer, and tokens inbound.
use Prim.Native.String.{◌++◌}
use ocpi_mock_hub.Prelude.{
  String, List, [], ◌∷◌, ◌++◌ as ◌++ₗ◌, Bool, true, ◌&&◌, not, ◌==ₛ◌, ltb, if◌then◌else◌, or_else,
  Dict, lookup, contains, ends_with,
}
use text.Mathlib.Text.{starts_with}
use ocpi_mock_hub.Auth.{Base64}
use ocpi_mock_hub.Overlay.{OverlayState}
use ocpi_mock_hub.Correctness.Types.{TrafficEvent, ActionState, CaseEvaluation, SessionRuntime}
use ocpi_mock_hub.Correctness.Eval.{Tools, pending_eval, judge, await, when}
use ocpi_mock_hub.Correctness.Eval.Window.{
  action_gate, pass_gate, window_events, filter_direction, first_matching_event,
}
use ocpi_mock_hub.Correctness.Eval.Requests.{
  validate_request_auth, validate_inbound_ocpi_request, validate_json_content_type,
  validate_response_time,
}
use ocpi_mock_hub.Correctness.Eval.Responses.{
  validate_ocpi_envelope_response, validate_authorization_envelope,
}
use ocpi_mock_hub.Correctness.Eval.Responses.Discovery.{validate_delete_credentials_envelope}
use ocpi_mock_hub.Correctness.Eval.Payloads.Authorize.{validate_authorize_request}
use ocpi_mock_hub.Correctness.Eval.Payloads.Records.{
  validate_location_patch_payload, validate_session_payload, validate_cdr_payload,
}
use ocpi_mock_hub.Correctness.Eval.Payloads.Tokens.{
  validate_token_payload, token_push_pending_message,
}

module _ (base64 : Base64) (tools : Tools) (overlays : Dict OverlayState) where
  abbrev pub is_method : String → TrafficEvent → Bool
  is_method method e = e.method ==ₛ method

  -- an evaluator that looks for one outbound event and checks it
  unfoldable pub eval_outbound :
      SessionRuntime
      → String
      → (TrafficEvent → Bool)
      → String
      → String
      → (ActionState → TrafficEvent → List String)
      → String
      → CaseEvaluation
  eval_outbound rt id test waiting intro issues message = pass_gate (action_gate rt id) λ action.
      await (first_matching_event test (filter_direction (window_events rt action.id) "outbound"))
        (pending_eval waiting []) λ e. judge intro (issues action e) message (e ∷ [])

  unfoldable pub eval_unregister_flow : SessionRuntime → CaseEvaluation
  eval_unregister_flow rt =
      eval_outbound rt "run_unregister" (is_method "DELETE")
        "Waiting for the outbound DELETE Credentials request."
        "The peer did not acknowledge DELETE Credentials as expected."
        (λ action e.
          validate_request_auth e
          ++ₗ validate_response_time tools e 2000
          ++ₗ validate_delete_credentials_envelope tools e)
        "The peer acknowledged DELETE Credentials with a valid OCPI response in time."

  unfoldable pub eval_cdr_push : SessionRuntime → CaseEvaluation
  eval_cdr_push rt =
      eval_outbound rt "run_cdr_push" (λ e. (e.method ==ₛ "POST") && contains e.path "/cdrs")
        "Waiting for the outbound CDR push." "The peer did not handle the pushed CDR as expected."
        (λ action e.
          validate_request_auth e
          ++ₗ validate_json_content_type e
          ++ₗ validate_response_time tools e 2000
          ++ₗ validate_cdr_payload tools e
          ++ₗ validate_ocpi_envelope_response tools e true)
        "The peer accepted the pushed CDR with a valid OCPI response."

  unfoldable pub eval_outbound_authorize : SessionRuntime → String → Bool → CaseEvaluation
  eval_outbound_authorize rt id expect_allowed =
      eval_outbound rt id (λ e. (e.method ==ₛ "POST") && ends_with e.path "/authorize")
        "Waiting for the outbound authorization request."
        ("The peer did not return the expected "
          ++ (if expect_allowed then "valid" else "invalid")
          ++ " authorization response.")
        (λ action e.
          validate_request_auth e
          ++ₗ validate_json_content_type e
          ++ₗ validate_authorize_request tools e action.output
          ++ₗ validate_response_time tools e 2000
          ++ₗ validate_authorization_envelope tools e expect_allowed)
        "The peer returned a valid authorization response."

  unfoldable pub eval_outbound_location_patch : SessionRuntime → String → Bool → CaseEvaluation
  eval_outbound_location_patch rt id expect_success =
      eval_outbound rt id (λ e. (e.method ==ₛ "PATCH") && contains e.path "/locations/")
        "Waiting for the outbound EVSE status update."
        "The EVSE status push did not produce the expected peer response."
        (λ action e.
          validate_request_auth e
          ++ₗ validate_json_content_type e
          ++ₗ validate_location_patch_payload tools e
          ++ₗ validate_response_time tools e 2000
          ++ₗ validate_ocpi_envelope_response tools e expect_success
          ++ₗ when (not expect_success && ltb e.response_status 400)
              "Expected the peer to reject the unknown EVSE update with a non-2xx HTTP status.")
        "The EVSE status push produced the expected peer response."

  unfoldable pub eval_outbound_session_push : SessionRuntime → String → String → CaseEvaluation
  eval_outbound_session_push rt id status =
      eval_outbound rt id (λ e. (e.method ==ₛ "PUT") && contains e.path "/sessions/")
        "Waiting for the outbound Session push."
        "The peer did not handle the pushed Session as expected."
        (λ action e.
          validate_request_auth e
          ++ₗ validate_json_content_type e
          ++ₗ validate_response_time tools e 2000
          ++ₗ validate_session_payload tools e status
          ++ₗ validate_ocpi_envelope_response tools e true)
        "The peer accepted the pushed Session update with a valid OCPI response."

  abbrev pub is_token_push : TrafficEvent → Bool
  is_token_push e =
      (e.direction ==ₛ "inbound")
      && (e.method ==ₛ "PUT")
      && starts_with e.path "/ocpi/2.2.1/receiver/tokens/"

  unfoldable pub known_token_issues : Bool → ActionState → TrafficEvent → List String
  unfolding contains when
  known_token_issues require_known_token action e =
      let uid = or_else (lookup "uid" action.output) "" in
      when (require_known_token && not (uid ==ₛ "") && not (contains e.path ("/" ++ uid))) (
        "Expected token UID " ++ uid ++ " based on the prepared session state, but received "
        ++ e.path ++ ".")

  unfoldable pub eval_inbound_token_push : SessionRuntime → String → Bool → Bool → CaseEvaluation
  eval_inbound_token_push rt id require_known_token require_invalid =
      pass_gate (action_gate rt id) λ action.
        await (first_matching_event is_token_push (window_events rt action.id))
          (pending_eval (token_push_pending_message action.output require_invalid) [])
          λ e.
            judge
              "The pushed Token object did not satisfy the expected OCPI request and payload rules."
              (validate_inbound_ocpi_request e
                ++ₗ validate_token_payload tools e require_invalid action.output
                ++ₗ validate_ocpi_envelope_response tools e true
                ++ₗ known_token_issues require_known_token action e)
              "The pushed Token object satisfied the expected OCPI request and payload rules."
              (e ∷ [])
