-- ===== src/Correctness/Eval/Responses/Discovery.antt =====
-- The responses of the handshake (correctness/eval.go): versions, version details and credentials.
use ocpi_mock_hub.Prelude.{
  String, Option, none, some, List, [], ◌∷◌, ◌++◌ as ◌++ₗ◌, true, not, ◌==ₛ◌, if◌then◌else◌, ◌>>=◌,
  any,
}
use ocpi_mock_hub.Json.{
  Json, null, arr, Items, nil, cons, Fields, get, string_or_empty, read_string, unmarshal_json,
}
use ocpi_mock_hub.Correctness.Types.{TrafficEvent}
use ocpi_mock_hub.Correctness.Eval.{
  Tools, OcpiEnvelope, string_value, payload_members, is_null_member, when,
}
use ocpi_mock_hub.Correctness.Eval.Responses.{
  url_issues, parse_envelope, checked, payload_maps, missing_members,
}

-- the loop over the advertised versions
unfoldable pub version_urls : Tools → List Fields → List String
unfolding url_issues when
version_urls tools [] = []
version_urls tools (v ∷ vs) =
    let url = string_or_empty (get "url" v) in
    (if url ==ₛ "" then [] else url_issues tools url) ++ₗ version_urls tools vs

unfoldable pub versions_issues : Tools → Option (List Fields) → List String
unfolding version_urls when
versions_issues tools none = "The versions response data was not a JSON array." ∷ []
versions_issues tools (some versions) =
    version_urls tools versions
    ++ₗ when (not (any (λ v. string_or_empty (get "version" v) ==ₛ "2.2.1") versions))
        "The versions response did not advertise OCPI version 2.2.1."

unfoldable pub validate_versions_envelope : Tools → TrafficEvent → List String
unfolding parse_envelope checked versions_issues payload_maps
validate_versions_envelope tools e =
    checked (parse_envelope tools e.response_body true)
      (λ (envelope : OcpiEnvelope). versions_issues tools (payload_maps envelope.payload))

pub record Endpoint : Type 0 where
  pub identifier : String
  pub role : String
  pub url : String

unfoldable pub read_endpoint : Fields → Option Endpoint
read_endpoint fs = do
  identifier ← read_string "identifier" fs
  role ← read_string "role" fs
  url ← read_string "url" fs
  some (record { identifier = identifier; role = role; url = url })

unfoldable pub read_endpoints : Items → Option (List Endpoint)
unfolding read_endpoint
read_endpoints nil = some []
read_endpoints (cons j js) =
    let rest = read_endpoints js in do e ← unmarshal_json read_endpoint j; es ← rest; some (e ∷ es)

unfoldable pub endpoints_of : Option Json → Option (List Endpoint)
unfolding read_endpoints
endpoints_of none = some []
endpoints_of (some null) = some []
endpoints_of (some (arr items)) = read_endpoints items
endpoints_of (some _) = none

unfoldable pub read_details : Fields → Option (String × List Endpoint)
unfolding endpoints_of
read_details fs = do
  version ← read_string "version" fs
  endpoints ← endpoints_of (get "endpoints" fs)
  some (version, endpoints)

unfoldable pub endpoint_urls : Tools → List Endpoint → List String
unfolding url_issues
endpoint_urls tools [] = []
endpoint_urls tools (e ∷ es) = url_issues tools e.url ++ₗ endpoint_urls tools es

unfoldable pub details_issues : Tools → Option (String × List Endpoint) → List String
unfolding endpoint_urls when
details_issues tools none = "The version details response data was not a valid object." ∷ []
details_issues tools (some (version, endpoints)) =
    when (not (version ==ₛ "2.2.1")) "The version details response did not report version 2.2.1."
    ++ₗ endpoint_urls tools endpoints
    ++ₗ when (not (any (λ (e : Endpoint). e.identifier ==ₛ "credentials") endpoints))
        "The version details response did not advertise a credentials endpoint."

-- json.Unmarshal of Data, which is nil where the member is missing
unfoldable pub read_payload {ℓ} : {A : Type ℓ} → (Fields → Option A) → Option Json → Option A
read_payload read none = none
read_payload read (some j) = unmarshal_json read j

unfoldable pub validate_version_details_envelope : Tools → TrafficEvent → List String
unfolding parse_envelope checked details_issues read_details read_payload
validate_version_details_envelope tools e =
    checked (parse_envelope tools e.response_body true) (λ (envelope : OcpiEnvelope).
      details_issues tools (read_payload read_details envelope.payload))

unfoldable pub credentials_issues : Tools → Option Fields → List String
unfolding missing_members url_issues string_value
credentials_issues tools none = "The credentials response data was not a valid object." ∷ []
credentials_issues tools (some fs) =
    let url = string_value tools (get "url" fs) in
    missing_members tools "credentials response" fs
      ("token" ∷ "url" ∷ "country_code" ∷ "party_id" ∷ [])
    ++ₗ (if url ==ₛ "" then [] else url_issues tools url)

unfoldable pub validate_credentials_envelope : Tools → TrafficEvent → List String
unfolding parse_envelope checked credentials_issues payload_members
validate_credentials_envelope tools e =
    checked (parse_envelope tools e.response_body true)
      (λ (envelope : OcpiEnvelope). credentials_issues tools (payload_members envelope.payload))

-- A document is never blank, so that only a missing member and null are accepted.
unfoldable pub validate_delete_credentials_envelope : Tools → TrafficEvent → List String
unfolding parse_envelope checked is_null_member when
validate_delete_credentials_envelope tools e =
    checked (parse_envelope tools e.response_body true) (λ (envelope : OcpiEnvelope).
      when (not (is_null_member envelope.payload))
        "DELETE Credentials returned a data payload, expected empty or null data.")
