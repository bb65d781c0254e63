-- ===== src/Correctness/Suite/Cases.antt =====
-- The cases of builtinOCPIEMSPSuite (correctness/definitions.go), in order, up to the remote stop.
use ocpi_mock_hub.Prelude.{List, [], ◌∷◌}
use ocpi_mock_hub.Correctness.Types.{CaseDefinition}
use ocpi_mock_hub.Correctness.Suite.Rows.{case_row, scenario, normative}

abbrev pub first_cases : List CaseDefinition
first_cases =
    case_row "handshake_flow" "Handshake"
      "Hub-Initiated Versions, Version Details, and Credentials Exchange"
      "Validate the official OCPI handshake flow initiated by the mock hub against the peer versions endpoint using the session's configured peer token."
      "handshake_flow" ("run_handshake" ∷ []) [] []
      (scenario "Register FromIOP" (
          "REG_FromIOP_2" ∷ "REG_FromIOP_3" ∷ "REG_FromIOP_6" ∷ "REG_FromIOP_7" ∷ "REG_FromIOP_8"
          ∷ "REG_FromIOP_9" ∷ [])
        ∷ [])
      (normative "versions" "version_information_endpoint" "Versions and Version Details"
        ∷ normative "credentials" "credentials" "Credentials Module"
        ∷ normative "transport-response" "transport_and_format#response" "OCPI Response Envelope"
        ∷ [])
    ∷ case_row "peer_fetches_hub_versions" "Handshake"
        "Peer Fetches Mock Hub Versions and Version Details"
        "Validate that the peer follows the credentials exchange by calling the mock hub versions endpoints with the session token returned by the hub."
        "peer_fetches_hub_versions" ("run_handshake" ∷ []) ("handshake_flow" ∷ []) []
        (scenario "Register FromIOP" ("REG_FromIOP_1" ∷ "REG_FromIOP_4" ∷ "REG_FromIOP_5" ∷ [])
          ∷ [])
        (normative "versions" "version_information_endpoint" "Versions and Version Details"
          ∷ normative "transport-auth" "transport_and_format#authorization" "Authorization Header"
          ∷ normative "transport-get" "transport_and_format#GET" "GET Request Semantics"
          ∷ [])
    ∷ case_row "pull_locations_full" "Locations Pull" "Full Locations Pull"
        "Validate the full pull request, request headers, and pagination sequence for the Locations sender endpoint."
        "pull_locations_full" ("arm_pull_locations_full" ∷ []) ("peer_fetches_hub_versions" ∷ []) []
        (scenario "Pull Locations ToIOP"
            ("Pull_Locations_1" ∷ "Pull_Locations_3" ∷ "Pull_Locations_4" ∷ [])
          ∷ [])
        (normative "transport-auth" "transport_and_format#authorization" "Authorization Header"
          ∷ normative "transport-pagination" "transport_and_format#pagination" "Pagination"
          ∷ normative "locations-sender" "mod_locations" "Locations Sender Interface"
          ∷ [])
    ∷ case_row "pull_locations_delta_update" "Locations Pull" "Delta Locations Pull After Update"
        "Mutate one location and validate that the eMSP performs a delta pull with a valid date range and receives the updated object."
        "pull_locations_delta_update" ("prepare_pull_locations_delta_update" ∷ [])
        ("pull_locations_full" ∷ []) []
        (scenario "Pull Locations ToIOP" ("Pull_Locations_10" ∷ "Pull_Locations_14" ∷ []) ∷ [])
        (normative "transport-pagination" "transport_and_format#pagination"
            "Pagination and Date Ranges"
          ∷ normative "locations-sender" "mod_locations" "Locations Sender Interface"
          ∷ [])
    ∷ case_row "pull_tariffs_full" "Tariffs Pull" "Full Tariffs Pull"
        "Validate the full pull request, request headers, and pagination sequence for the Tariffs sender endpoint."
        "pull_tariffs_full" ("arm_pull_tariffs_full" ∷ []) ("peer_fetches_hub_versions" ∷ []) []
        (scenario "Pull Tariff (ToIOP)"
            ("Pull_Tariff_1" ∷ "Pull_Tariff_2" ∷ "Pull_Tariff_3" ∷ "Pull_Tariff_4" ∷ [])
          ∷ [])
        (normative "transport-auth" "transport_and_format#authorization" "Authorization Header"
          ∷ normative "transport-pagination" "transport_and_format#pagination" "Pagination"
          ∷ normative "tariffs-sender" "mod_tariffs" "Tariffs Sender Interface"
          ∷ [])
    ∷ case_row "pull_tariffs_delta_update" "Tariffs Pull" "Delta Tariffs Pull After Update"
        "Mutate one tariff in the sandbox and validate that the eMSP performs a delta pull and receives the updated tariff."
        "pull_tariffs_delta_update" ("prepare_pull_tariffs_delta_update" ∷ [])
        ("pull_tariffs_full" ∷ []) []
        (scenario "Pull Tariff (ToIOP)" ("Pull_Tariff_6" ∷ "Pull_Tariff_7" ∷ []) ∷ [])
        (normative "transport-pagination" "transport_and_format#pagination"
            "Pagination and Date Ranges"
          ∷ normative "tariffs-sender" "mod_tariffs" "Tariffs Sender Interface"
          ∷ [])
    ∷ case_row "token_push_create" "Token Push" "Token Push Create"
        "Validate a new Token push from the eMSP to the hub." "token_push_create"
        ("arm_push_token_create" ∷ []) ("peer_fetches_hub_versions" ∷ []) []
        (scenario "Push Token ToIOP"
            ("Push_Token_1" ∷ "Push_Token_2" ∷ "Push_Token_3" ∷ "Push_Token_4" ∷ [])
          ∷ [])
        (normative "tokens-receiver" "mod_tokens" "Tokens Receiver Interface"
          ∷ normative "transport-client-owned" "transport_and_format#client_owned_push"
              "Client Owned Object Push"
          ∷ normative "types" "types" "Common OCPI Types"
          ∷ [])
    ∷ case_row "token_push_update" "Token Push" "Token Push Update"
        "Validate an update to a previously pushed Token object." "token_push_update"
        ("arm_push_token_update" ∷ []) ("token_push_create" ∷ []) []
        (scenario "Push Token ToIOP" ("Push_Token_3" ∷ "Push_Token_4" ∷ []) ∷ [])
        (normative "tokens-receiver" "mod_tokens" "Tokens Receiver Interface"
          ∷ normative "transport-put" "transport_and_format#PUT" "PUT Semantics"
          ∷ [])
    ∷ case_row "rta_valid" "Real-time Authorization" "Valid Token Authorization"
        "Validate the peer response when the hub asks for authorization of a known valid token."
        "rta_valid" ("run_rta_valid" ∷ []) ("peer_fetches_hub_versions" ∷ "token_push_update" ∷ [])
        [] (scenario "RTA FromIOP" ("RT_Authorization_3" ∷ []) ∷ [])
        (normative "tokens-rta" "mod_tokens" "Real-time Authorization"
          ∷ normative "transport-response" "transport_and_format#response" "OCPI Response Envelope"
          ∷ [])
    ∷ case_row "remote_start" "Commands" "Remote Start Session"
        "Validate the inbound START_SESSION command and the resulting callback flow." "remote_start"
        ("arm_remote_start" ∷ []) ("rta_valid" ∷ []) []
        (scenario "Start Session" (
            "Remote_Start_1" ∷ "Remote_Start_2" ∷ "Remote_Start_3" ∷ "Remote_Start_4"
            ∷ "Remote_Start_5" ∷ [])
          ∷ [])
        (normative "commands" "mod_commands" "Commands Module"
          ∷ normative "transport-response" "transport_and_format#response" "OCPI Response Envelope"
          ∷ [])
    ∷ case_row "remote_stop" "Commands" "Remote Stop Session"
        "Validate the inbound STOP_SESSION command and the resulting callback flow." "remote_stop"
        ("arm_remote_stop" ∷ []) ("remote_start" ∷ []) []
        (scenario "Stop Session" (
            "Remote_Stop_1" ∷ "Remote_Stop_2" ∷ "Remote_Stop_3" ∷ "Remote_Stop_4" ∷ "Remote_Stop_5"
            ∷ [])
          ∷ [])
        (normative "commands" "mod_commands" "Commands Module"
          ∷ normative "transport-response" "transport_and_format#response" "OCPI Response Envelope"
          ∷ [])
    ∷ []
