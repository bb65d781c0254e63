-- ===== src/Correctness/Eval/Verdicts/Builtin.antt =====
-- The verdicts of all built-in evaluators (builtinEvaluators, correctness/eval.go).
use ocpi_mock_hub.Prelude.{Dict}
use ocpi_mock_hub.Auth.{Base64}
use ocpi_mock_hub.Overlay.{OverlayState}
use ocpi_mock_hub.Correctness.Types.{CaseDefinition, SessionRuntime}
use ocpi_mock_hub.Correctness.Eval.{Tools}
use ocpi_mock_hub.Correctness.Eval.Flows.Pushes.{
  eval_unregister_flow, eval_cdr_push, eval_outbound_authorize, eval_outbound_location_patch,
  eval_outbound_session_push,
}
use ocpi_mock_hub.Correctness.Eval.Flows.Pulls.{
  eval_pull_locations_full_delete_connector, eval_pull_locations_delta_delete_evse,
  eval_pull_locations_delta_delete_location,
}
use ocpi_mock_hub.Correctness.Eval.Flows.Builtin.{
  Evaluator, action_of, run_evaluator, handshake_flow, peer_fetches_hub_versions, unregister_flow,
  pull_locations_full, pull_locations_delta_update, pull_locations_full_delete_connector,
  pull_locations_delta_delete_evse, pull_locations_delta_delete_location, pull_tariffs_full,
  pull_tariffs_delta_update, token_push_create, token_push_update, token_push_invalidate,
  rta_invalid, rta_valid, remote_start, remote_stop, evse_status_unknown, evse_status_known,
  session_push_pending, session_push_active, session_push_completed, cdr_push,
}
use ocpi_mock_hub.Correctness.Eval.Verdicts.{SortKeeps, AreOwn, IsVerdict}
use ocpi_mock_hub.Correctness.Eval.Verdicts.Flows.{
  eval_handshake_flow-IsVerdict, eval_peer_fetches_hub_versions-IsVerdict, eval_outbound-IsVerdict,
  eval_remote_start-IsVerdict, eval_remote_stop-IsVerdict, eval_inbound_token_push-IsVerdict,
  eval_inbound_paginated_pull-IsVerdict, eval_delta_pull-IsVerdict, eval_removal-IsVerdict,
}

module _ (base64 : Base64) (tools : Tools) (overlays : Dict OverlayState) (keeps : SortKeeps tools)
    (rt : SessionRuntime) (own : AreOwn rt) (def : CaseDefinition) where
  -- Over libraries whose sort only permutes and a session whose actions stand under their own ids:
  -- the verdict of every built-in evaluator is passed, failed, pending or manual, its evidence
  -- consists of the non-empty ids of events in the window of the evaluator's action, and it is
  -- passed or manual only if the evaluator's action is in the session and is neither idle nor
  -- failed.
  pub run_evaluator-IsVerdict :
      (evaluator : Evaluator)
      → IsVerdict rt (action_of evaluator) (run_evaluator base64 tools overlays evaluator rt def)
  unfolding run_evaluator action_of eval_unregister_flow eval_cdr_push eval_outbound_authorize
      eval_outbound_location_patch eval_outbound_session_push
      eval_pull_locations_full_delete_connector eval_pull_locations_delta_delete_evse
      eval_pull_locations_delta_delete_location
  run_evaluator-IsVerdict handshake_flow =
      eval_handshake_flow-IsVerdict base64 tools overlays rt own
  run_evaluator-IsVerdict peer_fetches_hub_versions =
      eval_peer_fetches_hub_versions-IsVerdict base64 tools overlays rt own
  run_evaluator-IsVerdict unregister_flow =
      eval_outbound-IsVerdict base64 tools overlays rt own _ _ _ _ _ _
  run_evaluator-IsVerdict pull_locations_full =
      eval_inbound_paginated_pull-IsVerdict base64 tools overlays rt own keeps _ _ _ _ _
  run_evaluator-IsVerdict pull_locations_delta_update =
      eval_delta_pull-IsVerdict base64 tools overlays rt own keeps _ _ _ _
  run_evaluator-IsVerdict pull_locations_full_delete_connector =
      eval_removal-IsVerdict base64 tools overlays rt own keeps def _ _ _ _ _ _ _
  run_evaluator-IsVerdict pull_locations_delta_delete_evse =
      eval_removal-IsVerdict base64 tools overlays rt own keeps def _ _ _ _ _ _ _
  run_evaluator-IsVerdict pull_locations_delta_delete_location =
      eval_removal-IsVerdict base64 tools overlays rt own keeps def _ _ _ _ _ _ _
  run_evaluator-IsVerdict pull_tariffs_full =
      eval_inbound_paginated_pull-IsVerdict base64 tools overlays rt own keeps _ _ _ _ _
  run_evaluator-IsVerdict pull_tariffs_delta_update =
      eval_delta_pull-IsVerdict base64 tools overlays rt own keeps _ _ _ _
  run_evaluator-IsVerdict token_push_create =
      eval_inbound_token_push-IsVerdict base64 tools overlays rt own _ _ _
  run_evaluator-IsVerdict token_push_update =
      eval_inbound_token_push-IsVerdict base64 tools overlays rt own _ _ _
  run_evaluator-IsVerdict token_push_invalidate =
      eval_inbound_token_push-IsVerdict base64 tools overlays rt own _ _ _
  run_evaluator-IsVerdict rta_invalid =
      eval_outbound-IsVerdict base64 tools overlays rt own _ _ _ _ _ _
  run_evaluator-IsVerdict rta_valid =
      eval_outbound-IsVerdict base64 tools overlays rt own _ _ _ _ _ _
  run_evaluator-IsVerdict remote_start = eval_remote_start-IsVerdict base64 tools overlays rt own
  run_evaluator-IsVerdict remote_stop = eval_remote_stop-IsVerdict base64 tools overlays rt own
  run_evaluator-IsVerdict evse_status_unknown =
      eval_outbound-IsVerdict base64 tools overlays rt own _ _ _ _ _ _
  run_evaluator-IsVerdict evse_status_known =
      eval_outbound-IsVerdict base64 tools overlays rt own _ _ _ _ _ _
  run_evaluator-IsVerdict session_push_pending =
      eval_outbound-IsVerdict base64 tools overlays rt own _ _ _ _ _ _
  run_evaluator-IsVerdict session_push_active =
      eval_outbound-IsVerdict base64 tools overlays rt own _ _ _ _ _ _
  run_evaluator-IsVerdict session_push_completed =
      eval_outbound-IsVerdict base64 tools overlays rt own _ _ _ _ _ _
  run_evaluator-IsVerdict cdr_push =
      eval_outbound-IsVerdict base64 tools overlays rt own _ _ _ _ _ _
