-- ===== src/Correctness/Suite/LaterCases.antt =====
-- The cases of builtinOCPIEMSPSuite (correctness/definitions.go), in order, from the token invalidation on.
use ocpi_mock_hub.Prelude.{List, [], ◌∷◌}
use ocpi_mock_hub.Correctness.Types.{CaseDefinition}
use ocpi_mock_hub.Correctness.Suite.Rows.{case_row, checkpoint, scenario, normative}

abbrev pub later_cases : List CaseDefinition
later_cases =
    case_row "token_push_invalidate" "Token Push" "Token Push Invalidation"
      "Validate token invalidation using a Token push with valid set to false."
      "token_push_invalidate" ("arm_push_token_invalidate" ∷ []) ("token_push_update" ∷ []) []
      (scenario "Push Token ToIOP" ("Push_Token_4" ∷ []) ∷ [])
      (normative "tokens-invalid" "mod_tokens" "Token Invalidation"
        ∷ normative "transport-put" "transport_and_format#PUT" "PUT Semantics"
        ∷ [])
    ∷ case_row "rta_invalid" "Real-time Authorization" "Invalid Token Authorization"
        "Validate the peer response when the hub asks for authorization of an invalid token."
        "rta_invalid" ("run_rta_invalid" ∷ []) ("token_push_invalidate" ∷ []) []
        (scenario "RTA FromIOP" ("RT_Authorization_2" ∷ []) ∷ [])
        (normative "tokens-rta" "mod_tokens" "Real-time Authorization"
          ∷ normative "transport-response" "transport_and_format#response" "OCPI Response Envelope"
          ∷ [])
    ∷ case_row "pull_locations_full_delete_connector" "Locations Pull"
        "Full Locations Pull After Connector Removal"
        "Remove one connector from the sandbox and validate both the full payload semantics and the tester's observation on the eMSP side."
        "pull_locations_full_delete_connector" ("prepare_pull_locations_full_delete_connector" ∷ [])
        ("pull_locations_full" ∷ [])
        (checkpoint "confirm_connector_removed_after_full_pull"
            "After the full sync finished, what did you observe on the eMSP side for the removed connector?"
            "Example: connector absent from location view"
          ∷ [])
        (scenario "Pull Locations ToIOP" ("Pull_Locations_7" ∷ []) ∷ [])
        (normative "transport-get" "transport_and_format#GET" "Full Sync Semantics"
          ∷ normative "locations-sender" "mod_locations" "Locations Sender Interface"
          ∷ [])
    ∷ case_row "pull_locations_delta_delete_evse" "Locations Pull"
        "Delta Locations Pull After EVSE Removal"
        "Mark one EVSE as REMOVED and validate the delta payload plus the tester's observation on the eMSP side."
        "pull_locations_delta_delete_evse" ("prepare_pull_locations_delta_delete_evse" ∷ [])
        ("pull_locations_delta_update" ∷ [])
        (checkpoint "confirm_evse_removed_after_delta_pull"
            "After the delta sync finished, what did you observe on the eMSP side for the removed EVSE?"
            "Example: EVSE marked removed or hidden"
          ∷ [])
        (scenario "Pull Locations ToIOP" ("Pull_Locations_12" ∷ []) ∷ [])
        (normative "locations-removed" "mod_locations" "EVSE Removed Status"
          ∷ normative "transport-pagination" "transport_and_format#pagination"
              "Date Range Pagination"
          ∷ [])
    ∷ case_row "pull_locations_delta_delete_location" "Locations Pull"
        "Delta Locations Pull After Location Removal"
        "Mark all EVSEs on one location as REMOVED and validate the delta payload plus the tester's observation on the eMSP side."
        "pull_locations_delta_delete_location" ("prepare_pull_locations_delta_delete_location" ∷ [])
        ("pull_locations_delta_update" ∷ [])
        (checkpoint "confirm_location_removed_after_delta_pull"
            "After the delta sync finished, what did you observe on the eMSP side for the removed location?"
            "Example: location hidden or all EVSEs removed"
          ∷ [])
        (scenario "Pull Locations ToIOP" ("Pull_Locations_13" ∷ []) ∷ [])
        (normative "locations-removed" "mod_locations" "Location Removal via EVSE Status"
          ∷ normative "transport-pagination" "transport_and_format#pagination"
              "Date Range Pagination"
          ∷ [])
    ∷ case_row "evse_status_unknown" "Push To eMSP" "Unknown EVSE Status Push"
        "Validate the peer behavior when the hub sends a status update for an unknown EVSE."
        "evse_status_unknown" ("run_evse_status_unknown" ∷ []) ("peer_fetches_hub_versions" ∷ []) []
        (scenario "Push EVSE status FromIOP" ("Push_EVSEStatus_2" ∷ []) ∷ [])
        (normative "locations-receiver" "mod_locations" "Locations Receiver Interface"
          ∷ normative "transport-response" "transport_and_format#response" "OCPI Response Envelope"
          ∷ [])
    ∷ case_row "evse_status_known" "Push To eMSP" "Known EVSE Status Push"
        "Validate the peer behavior when the hub sends a status update for a known EVSE."
        "evse_status_known" ("run_evse_status_known" ∷ []) ("peer_fetches_hub_versions" ∷ []) []
        (scenario "Push EVSE status FromIOP" ("Push_EVSEStatus_3" ∷ "Push_EVSEStatus_4" ∷ []) ∷ [])
        (normative "locations-receiver" "mod_locations" "Locations Receiver Interface"
          ∷ normative "transport-response" "transport_and_format#response" "OCPI Response Envelope"
          ∷ [])
    ∷ case_row "session_push_pending" "Push To eMSP" "Pending Session Push"
        "Validate the peer response when the hub pushes a PENDING Session object."
        "session_push_pending" ("run_session_push_pending" ∷ []) ("peer_fetches_hub_versions" ∷ [])
        [] (scenario "Push Sessions FromIOP" ("Push_Session_2" ∷ []) ∷ [])
        (normative "sessions-receiver" "mod_sessions" "Sessions Receiver Interface"
          ∷ normative "transport-response" "transport_and_format#response" "OCPI Response Envelope"
          ∷ [])
    ∷ case_row "session_push_active" "Push To eMSP" "Active Session Push"
        "Validate the peer response when the hub pushes an ACTIVE Session update."
        "session_push_active" ("run_session_push_active" ∷ []) ("session_push_pending" ∷ []) []
        (scenario "Push Sessions FromIOP" ("Push_Session_3" ∷ []) ∷ [])
        (normative "sessions-receiver" "mod_sessions" "Sessions Receiver Interface"
          ∷ normative "transport-response" "transport_and_format#response" "OCPI Response Envelope"
          ∷ [])
    ∷ case_row "session_push_completed" "Push To eMSP" "Completed Session Push"
        "Validate the peer response when the hub pushes a COMPLETED Session update."
        "session_push_completed" ("run_session_push_completed" ∷ []) ("session_push_active" ∷ []) []
        (scenario "Push Sessions FromIOP" ("Push_Session_4" ∷ []) ∷ [])
        (normative "sessions-status" "mod_sessions" "Session Lifecycle"
          ∷ normative "transport-response" "transport_and_format#response" "OCPI Response Envelope"
          ∷ [])
    ∷ case_row "cdr_push" "Push To eMSP" "CDR Push"
        "Validate the peer response when the hub pushes a CDR." "cdr_push" ("run_cdr_push" ∷ [])
        ("session_push_completed" ∷ []) [] (scenario "Push CDR FromIOP" ("Push_CDR_3" ∷ []) ∷ [])
        (normative "cdrs-receiver" "mod_cdrs" "CDRs Receiver Interface"
          ∷ normative "transport-response" "transport_and_format#response" "OCPI Response Envelope"
          ∷ [])
    ∷ case_row "unregister_flow" "Handshake" "Credentials Unregister"
        "Validate the peer DELETE Credentials response and timing after the rest of the correctness flow has completed."
        "unregister_flow" ("run_unregister" ∷ []) ("peer_fetches_hub_versions" ∷ []) []
        (scenario "Unregister FromIOP" ("Unregister_FromIOP_1" ∷ "Unregister_FromIOP_2" ∷ []) ∷ [])
        (normative "credentials" "credentials" "Credentials Module"
          ∷ normative "transport-response" "transport_and_format#response" "OCPI Response Envelope"
          ∷ [])
    ∷ []
