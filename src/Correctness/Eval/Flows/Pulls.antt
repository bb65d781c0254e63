-- ===== src/Correctness/Eval/Flows/Pulls.antt =====
-- The evaluators of inbound pulls (correctness/eval.go): full and delta pulls of locations and tariffs,
-- with the removals that the tester confirms.
use Prim.Native.String.{◌++◌}
use ocpi_mock_hub.Prelude.{
  String, Option, List, [], ◌∷◌, ◌++◌ as ◌++ₗ◌, Bool, true, false, ◌&&◌, not, ◌==ₛ◌, if◌then◌else◌,
  or_else, lookup,
}
use ocpi_mock_hub.Correctness.Types.{
  TrafficEvent, ActionState, CheckpointState, CaseDefinition, CaseEvaluation, SessionRuntime,
}
use ocpi_mock_hub.Correctness.Eval.{
  Tools, pending_eval, failed_eval, judge, await_some, checkpoint_state, manual_or_passed, when,
}
use ocpi_mock_hub.Correctness.Eval.Window.{action_gate, pass_gate, matching_inbound_list_events}
use ocpi_mock_hub.Correctness.Eval.Requests.Pages.{validate_paginated_requests}
use ocpi_mock_hub.Correctness.Eval.Payloads.Lists.{
  payload_contains_value, payload_has_evse_status, payload_has_all_location_evses_removed,
}

-- `if len(issues) > 0 { return failedEval(…) }; return manualOrPassed(…)`
unfoldable pub judge_manually :
    String → List String → Option CheckpointState → String → List TrafficEvent → CaseEvaluation
judge_manually intro [] checkpoint message events = manual_or_passed checkpoint message events
judge_manually intro (issue ∷ issues) checkpoint message events =
    failed_eval intro (issue ∷ issues) events

abbrev output_of : ActionState → String → String
output_of action key = or_else (lookup key action.output) ""

-- the issue of an object that is missing from the action's output, or that fails its test
unfoldable pub object_issues : String → String → Bool → String → List String
unfolding when
object_issues id missing holds wrong =
    if id ==ₛ ""
    then ("The session did not store the expected removed " ++ missing ++ " identifier.") ∷ []
    else when (not holds) wrong

module _ (tools : Tools) where
  unfoldable pub updated_issues : List TrafficEvent → String → String → List String
  unfolding payload_contains_value when
  updated_issues events kind id =
      when (not (kind ==ₛ "") && not (id ==ₛ "") && not (payload_contains_value events id))
        ("The expected updated " ++ kind ++ " " ++ id ++ " did not appear in the response payload.")

  unfoldable pub eval_inbound_paginated_pull :
      SessionRuntime → String → String → Bool → String → String → CaseEvaluation
  eval_inbound_paginated_pull rt id path require_dates kind expected_id =
      pass_gate (action_gate rt id) λ action.
        await_some (matching_inbound_list_events tools rt action.id path)
          (pending_eval "Waiting for inbound pull traffic from the peer." [])
          λ events.
            judge
              "The observed pull sequence did not match the expected OCPI request or pagination behavior."
              (validate_paginated_requests tools events require_dates
                ++ₗ updated_issues events kind expected_id)
              "The observed pull sequence matched the expected OCPI request and pagination behavior."
              events

  unfoldable pub eval_delta_pull :
      SessionRuntime → String → String → String → String → CaseEvaluation
  eval_delta_pull rt id path kind key =
      pass_gate (action_gate rt id)
        λ action. eval_inbound_paginated_pull rt action.id path true kind (output_of action key)

  -- an evaluator of a pull after a removal
  unfoldable pub eval_removal :
      SessionRuntime
      → CaseDefinition
      → String
      → String
      → Bool
      → (ActionState → List TrafficEvent → List String)
      → String
      → String
      → String
      → CaseEvaluation
  eval_removal rt def id waiting require_dates issues checkpoint intro message =
      pass_gate (action_gate rt id) λ action.
        await_some (matching_inbound_list_events tools rt action.id "/ocpi/2.2.1/sender/locations")
          (pending_eval waiting [])
          λ events.
            judge_manually intro
              (validate_paginated_requests tools events require_dates ++ₗ issues action events)
              (checkpoint_state rt def.id checkpoint) message events

  unfoldable pub eval_pull_locations_full_delete_connector :
      SessionRuntime → CaseDefinition → CaseEvaluation
  eval_pull_locations_full_delete_connector rt def =
      eval_removal rt def "prepare_pull_locations_full_delete_connector"
        "Waiting for the eMSP to perform the full locations pull after the connector was removed."
        false
        (λ action events.
          let id = output_of action "connector_id" in
          object_issues id "connector" (not (payload_contains_value events id))
            ("The removed connector " ++ id ++ " still appeared in the full pull payload."))
        "confirm_connector_removed_after_full_pull"
        "The full pull after connector removal did not match the expected OCPI behavior."
        "The connector disappeared from the full pull payload. Confirm what the eMSP showed after sync."

  unfoldable pub eval_pull_locations_delta_delete_evse :
      SessionRuntime → CaseDefinition → CaseEvaluation
  eval_pull_locations_delta_delete_evse rt def =
      eval_removal rt def "prepare_pull_locations_delta_delete_evse"
        "Waiting for the eMSP to perform the delta locations pull after the EVSE was removed." true
        (λ action events.
          let id = output_of action "evse_uid" in
          object_issues id "EVSE" (payload_has_evse_status tools events id "REMOVED")
            ("The EVSE " ++ id ++ " did not appear with status REMOVED in the delta payload."))
        "confirm_evse_removed_after_delta_pull"
        "The delta pull after EVSE removal did not match the expected OCPI behavior."
        "The EVSE appeared as REMOVED in the delta payload. Confirm what the eMSP showed after sync."

  unfoldable pub eval_pull_locations_delta_delete_location :
      SessionRuntime → CaseDefinition → CaseEvaluation
  eval_pull_locations_delta_delete_location rt def =
      eval_removal rt def "prepare_pull_locations_delta_delete_location"
        "Waiting for the eMSP to perform the delta locations pull after the location was removed."
        true
        (λ action events.
          let id = output_of action "location_id" in
          object_issues id "location" (payload_has_all_location_evses_removed tools events id)
            ("The location " ++ id ++ " did not return with all EVSEs marked REMOVED."))
        "confirm_location_removed_after_delta_pull"
        "The delta pull after location removal did not match the expected OCPI behavior."
        "All EVSEs on the removed location appeared as REMOVED in the delta payload. Confirm what the eMSP showed after sync."
