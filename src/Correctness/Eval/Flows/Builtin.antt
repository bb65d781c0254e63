-- ===== src/Correctness/Eval/Flows/Builtin.antt =====
-- builtinEvaluators (correctness/eval.go): the evaluator of each name, and the action that it waits for.
use ocpi_mock_hub.Prelude.{String, Option, none, some, [], ◌∷◌, true, false, Dict, lookup}
use ocpi_mock_hub.Auth.{Base64}
use ocpi_mock_hub.Overlay.{OverlayState}
use ocpi_mock_hub.Correctness.Types.{CaseDefinition, CaseEvaluation, SessionRuntime, Evaluators}
use ocpi_mock_hub.Correctness.Eval.{Tools}
use ocpi_mock_hub.Correctness.Eval.Flows.{eval_handshake_flow, eval_peer_fetches_hub_versions}
use ocpi_mock_hub.Correctness.Eval.Flows.Commands.{eval_remote_start, eval_remote_stop}
use ocpi_mock_hub.Correctness.Eval.Flows.Pushes.{
  eval_unregister_flow, eval_cdr_push, eval_outbound_authorize, eval_outbound_location_patch,
  eval_outbound_session_push, eval_inbound_token_push,
}
use ocpi_mock_hub.Correctness.Eval.Flows.Pulls.{
  eval_inbound_paginated_pull, eval_delta_pull, eval_pull_locations_full_delete_connector,
  eval_pull_locations_delta_delete_evse, eval_pull_locations_delta_delete_location,
}

-- The names of the evaluators, one constructor for each entry of the map.
pub data Evaluator : Type 0 where
  handshake_flow peer_fetches_hub_versions unregister_flow : Evaluator
  pull_locations_full pull_locations_delta_update : Evaluator
  pull_locations_full_delete_connector pull_locations_delta_delete_evse : Evaluator
  pull_locations_delta_delete_location : Evaluator
  pull_tariffs_full pull_tariffs_delta_update : Evaluator
  token_push_create token_push_update token_push_invalidate : Evaluator
  rta_invalid rta_valid remote_start remote_stop : Evaluator
  evse_status_unknown evse_status_known : Evaluator
  session_push_pending session_push_active session_push_completed cdr_push : Evaluator

abbrev pub evaluator_names : Dict Evaluator
evaluator_names =
    ("handshake_flow", handshake_flow)
    ∷ ("peer_fetches_hub_versions", peer_fetches_hub_versions)
    ∷ ("unregister_flow", unregister_flow)
    ∷ ("pull_locations_full", pull_locations_full)
    ∷ ("pull_locations_delta_update", pull_locations_delta_update)
    ∷ ("pull_locations_full_delete_connector", pull_locations_full_delete_connector)
    ∷ ("pull_locations_delta_delete_evse", pull_locations_delta_delete_evse)
    ∷ ("pull_locations_delta_delete_location", pull_locations_delta_delete_location)
    ∷ ("pull_tariffs_full", pull_tariffs_full)
    ∷ ("pull_tariffs_delta_update", pull_tariffs_delta_update)
    ∷ ("token_push_create", token_push_create)
    ∷ ("token_push_update", token_push_update)
    ∷ ("token_push_invalidate", token_push_invalidate)
    ∷ ("rta_invalid", rta_invalid)
    ∷ ("rta_valid", rta_valid)
    ∷ ("remote_start", remote_start)
    ∷ ("remote_stop", remote_stop)
    ∷ ("evse_status_unknown", evse_status_unknown)
    ∷ ("evse_status_known", evse_status_known)
    ∷ ("session_push_pending", session_push_pending)
    ∷ ("session_push_active", session_push_active)
    ∷ ("session_push_completed", session_push_completed)
    ∷ ("cdr_push", cdr_push)
    ∷ []

-- the action whose traffic an evaluator reads
unfoldable pub action_of : Evaluator → String
action_of handshake_flow = "run_handshake"
action_of peer_fetches_hub_versions = "run_handshake"
action_of unregister_flow = "run_unregister"
action_of pull_locations_full = "arm_pull_locations_full"
action_of pull_locations_delta_update = "prepare_pull_locations_delta_update"
action_of pull_locations_full_delete_connector = "prepare_pull_locations_full_delete_connector"
action_of pull_locations_delta_delete_evse = "prepare_pull_locations_delta_delete_evse"
action_of pull_locations_delta_delete_location = "prepare_pull_locations_delta_delete_location"
action_of pull_tariffs_full = "arm_pull_tariffs_full"
action_of pull_tariffs_delta_update = "prepare_pull_tariffs_delta_update"
action_of token_push_create = "arm_push_token_create"
action_of token_push_update = "arm_push_token_update"
action_of token_push_invalidate = "arm_push_token_invalidate"
action_of rta_invalid = "run_rta_invalid"
action_of rta_valid = "run_rta_valid"
action_of remote_start = "arm_remote_start"
action_of remote_stop = "arm_remote_stop"
action_of evse_status_unknown = "run_evse_status_unknown"
action_of evse_status_known = "run_evse_status_known"
action_of session_push_pending = "run_session_push_pending"
action_of session_push_active = "run_session_push_active"
action_of session_push_completed = "run_session_push_completed"
action_of cdr_push = "run_cdr_push"

module _ (base64 : Base64) (tools : Tools) (overlays : Dict OverlayState) where
  -- evalHandshakeFlow to evalCDRPush
  unfoldable pub run_evaluator : Evaluator → SessionRuntime → CaseDefinition → CaseEvaluation
  run_evaluator handshake_flow rt def = eval_handshake_flow base64 tools overlays rt
  run_evaluator peer_fetches_hub_versions rt def =
      eval_peer_fetches_hub_versions base64 tools overlays rt
  run_evaluator unregister_flow rt def = eval_unregister_flow base64 tools overlays rt
  run_evaluator pull_locations_full rt def =
      eval_inbound_paginated_pull tools rt "arm_pull_locations_full" "/ocpi/2.2.1/sender/locations"
        false "" ""
  run_evaluator pull_locations_delta_update rt def =
      eval_delta_pull tools rt "prepare_pull_locations_delta_update" "/ocpi/2.2.1/sender/locations"
        "location" "location_id"
  run_evaluator pull_locations_full_delete_connector rt def =
      eval_pull_locations_full_delete_connector tools rt def
  run_evaluator pull_locations_delta_delete_evse rt def =
      eval_pull_locations_delta_delete_evse tools rt def
  run_evaluator pull_locations_delta_delete_location rt def =
      eval_pull_locations_delta_delete_location tools rt def
  run_evaluator pull_tariffs_full rt def =
      eval_inbound_paginated_pull tools rt "arm_pull_tariffs_full" "/ocpi/2.2.1/sender/tariffs"
        false "" ""
  run_evaluator pull_tariffs_delta_update rt def =
      eval_delta_pull tools rt "prepare_pull_tariffs_delta_update" "/ocpi/2.2.1/sender/tariffs"
        "tariff" "tariff_id"
  run_evaluator token_push_create rt def =
      eval_inbound_token_push base64 tools overlays rt "arm_push_token_create" false false
  run_evaluator token_push_update rt def =
      eval_inbound_token_push base64 tools overlays rt "arm_push_token_update" true false
  run_evaluator token_push_invalidate rt def =
      eval_inbound_token_push base64 tools overlays rt "arm_push_token_invalidate" true true
  run_evaluator rta_invalid rt def =
      eval_outbound_authorize base64 tools overlays rt "run_rta_invalid" false
  run_evaluator rta_valid rt def =
      eval_outbound_authorize base64 tools overlays rt "run_rta_valid" true
  run_evaluator remote_start rt def = eval_remote_start base64 tools overlays rt
  run_evaluator remote_stop rt def = eval_remote_stop base64 tools overlays rt
  run_evaluator evse_status_unknown rt def =
      eval_outbound_location_patch base64 tools overlays rt "run_evse_status_unknown" false
  run_evaluator evse_status_known rt def =
      eval_outbound_location_patch base64 tools overlays rt "run_evse_status_known" true
  run_evaluator session_push_pending rt def =
      eval_outbound_session_push base64 tools overlays rt "run_session_push_pending" "PENDING"
  run_evaluator session_push_active rt def =
      eval_outbound_session_push base64 tools overlays rt "run_session_push_active" "ACTIVE"
  run_evaluator session_push_completed rt def =
      eval_outbound_session_push base64 tools overlays rt "run_session_push_completed" "COMPLETED"
  run_evaluator cdr_push rt def = eval_cdr_push base64 tools overlays rt

  unfoldable pub registered :
      Option Evaluator → Option (SessionRuntime → CaseDefinition → CaseEvaluation)
  unfolding run_evaluator
  registered none = none
  registered (some evaluator) = some (run_evaluator evaluator)

  -- the map, which a case's evaluator is looked up in
  unfoldable pub builtin_evaluators : Evaluators
  unfolding registered
  builtin_evaluators name = registered (lookup name evaluator_names)
