-- ===== src/Correctness/Suite/Deferred.antt =====
-- The deferred scenarios of builtinOCPIEMSPSuite (correctness/definitions.go).
use ocpi_mock_hub.Prelude.{List, [], ◌∷◌}
use ocpi_mock_hub.Correctness.Types.{DeferredScenario}
use ocpi_mock_hub.Correctness.Suite.Rows.{deferred, scenario, normative}

abbrev pub deferred_scenarios : List DeferredScenario
deferred_scenarios =
    deferred "locations_push_receiver_routes" "Inbound Locations Receiver Checks"
      "Deferred because the current mock hub does not expose receiver-side locations routes for partner pushes in the base implementation."
      (scenario "Push Locations ToIOP"
          ("Push_Location_1" ∷ "Push_Location_2" ∷ "Push_Location_3" ∷ "Push_Location_4" ∷ [])
        ∷ scenario "Push Static Data ToIOP" []
        ∷ [])
      (normative "locations-receiver" "mod_locations" "Locations Receiver Interface"
        ∷ normative "transport-response" "transport_and_format#response" "OCPI Response Envelope"
        ∷ [])
    ∷ deferred "partner_pull_cdrs" "Hub Pulls CDRs From Peer"
        "Deferred because it requires a new outbound pull client and partner-side list crawlers beyond the v1 scope."
        (scenario "Pull CDR(s) FromIOP" ("Pull_CDR_1" ∷ "Pull_CDR_2" ∷ "Pull_CDR_3" ∷ []) ∷ [])
        (normative "cdrs-sender" "mod_cdrs" "CDRs Sender Interface"
          ∷ normative "transport-pagination" "transport_and_format#pagination" "Pagination"
          ∷ [])
    ∷ deferred "partner_pull_tariffs" "Hub Pulls Tariffs From Peer"
        "Deferred because it requires a new outbound pull client and partner-side list crawlers beyond the v1 scope."
        (scenario "Pull Tariffs FromIOP"
            ("Pull_Tariffs_1" ∷ "Pull_Tariffs_2" ∷ "Pull_Tariffs_3" ∷ [])
          ∷ [])
        (normative "tariffs-sender" "mod_tariffs" "Tariffs Sender Interface"
          ∷ normative "transport-pagination" "transport_and_format#pagination" "Pagination"
          ∷ [])
    ∷ []
