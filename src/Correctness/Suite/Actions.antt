-- ===== src/Correctness/Suite/Actions.antt =====
-- The actions of builtinOCPIEMSPSuite (correctness/definitions.go), in order.
use ocpi_mock_hub.Prelude.{List, [], ◌∷◌}
use ocpi_mock_hub.Correctness.Types.{ActionDefinition}
use ocpi_mock_hub.Correctness.Suite.Rows.{action}

abbrev pub builtin_actions : List ActionDefinition
builtin_actions =
    action "run_handshake" "Handshake" "Run Handshake"
      "The mock hub discovers the peer OCPI endpoints and performs the credentials exchange from the beginning."
      "outbound"
    ∷ action "arm_pull_locations_full" "Locations Pull" "Wait For Full Locations Pull"
        "Arm the session, then trigger a full pull on the eMSP so the hub can validate the request sequence and paging behavior."
        "observe"
    ∷ action "prepare_pull_locations_delta_update" "Locations Pull" "Prepare Delta Location Update"
        "Mutate one location in the session sandbox, then trigger a delta pull on the eMSP."
        "prepare"
    ∷ action "arm_pull_tariffs_full" "Tariffs Pull" "Wait For Full Tariffs Pull"
        "Arm the session, then trigger a full tariffs pull on the eMSP so the hub can validate paging and headers."
        "observe"
    ∷ action "prepare_pull_tariffs_delta_update" "Tariffs Pull" "Prepare Delta Tariff Update"
        "Mutate one tariff in the session sandbox, then trigger a delta pull on the eMSP." "prepare"
    ∷ action "arm_push_token_create" "Token Push" "Wait For Token Create"
        "Arm the session, then ask the eMSP to push a new Token object using the instructed RFID token profile with valid=true and whitelist=ALLOWED."
        "observe"
    ∷ action "arm_push_token_update" "Token Push" "Wait For Token Update"
        "Arm the session, then ask the eMSP to update the same Token object identified in the action output."
        "observe"
    ∷ action "run_rta_valid" "Real-time Authorization" "Run Valid Authorization"
        "Use the discovered Tokens sender endpoint to send an authorization request for the known valid Token object prepared in this session."
        "outbound"
    ∷ action "arm_remote_start" "Commands" "Wait For Remote Start"
        "Arm the session, then ask the eMSP to send START_SESSION using the non-removed happy-path location and token shown in the action output."
        "observe"
    ∷ action "arm_remote_stop" "Commands" "Wait For Remote Stop"
        "Arm the session, then ask the eMSP to send STOP_SESSION for the active mock session."
        "observe"
    ∷ action "arm_push_token_invalidate" "Token Push" "Wait For Token Invalidation"
        "Arm the session, then ask the eMSP to invalidate the same Token object by pushing it again with valid set to false."
        "observe"
    ∷ action "run_rta_invalid" "Real-time Authorization" "Run Invalid Authorization"
        "Use the discovered Tokens sender endpoint to send an authorization request for the invalidated token from this session and validate the peer response."
        "outbound"
    ∷ action "prepare_pull_locations_full_delete_connector" "Locations Pull"
        "Prepare Full Connector Deletion"
        "Remove one connector from the sandbox, then trigger a full locations pull and confirm the connector disappeared on the eMSP side."
        "prepare"
    ∷ action "prepare_pull_locations_delta_delete_evse" "Locations Pull"
        "Prepare Delta EVSE Removal"
        "Mark one EVSE as removed in the sandbox, then trigger a delta pull and confirm the removal on the eMSP side."
        "prepare"
    ∷ action "prepare_pull_locations_delta_delete_location" "Locations Pull"
        "Prepare Delta Location Removal"
        "Mark one location as removed in the sandbox, then trigger a delta pull and confirm the removal on the eMSP side."
        "prepare"
    ∷ action "run_evse_status_unknown" "Push To eMSP" "Push Unknown EVSE Status"
        "Send a PATCH-like EVSE status update for an unknown EVSE using the peer locations receiver endpoint."
        "outbound"
    ∷ action "run_evse_status_known" "Push To eMSP" "Push Known EVSE Status"
        "Send a PATCH-like EVSE status update for a known EVSE using the peer locations receiver endpoint."
        "outbound"
    ∷ action "run_session_push_pending" "Push To eMSP" "Push Pending Session"
        "Push a PENDING Session object to the peer sessions receiver endpoint." "outbound"
    ∷ action "run_session_push_active" "Push To eMSP" "Push Active Session"
        "Push an ACTIVE Session update for the same session identifier." "outbound"
    ∷ action "run_session_push_completed" "Push To eMSP" "Push Completed Session"
        "Push a COMPLETED Session update for the same session identifier." "outbound"
    ∷ action "run_cdr_push" "Push To eMSP" "Push CDR"
        "Push a CDR to the peer CDRs receiver endpoint." "outbound"
    ∷ action "run_unregister" "Handshake" "Run Unregister"
        "Send DELETE Credentials to the peer after the rest of the correctness flow is complete."
        "outbound"
    ∷ []
