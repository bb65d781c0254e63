-- ===== src/Correctness/Eval/Requests.antt =====
-- The checks of a request (correctness/eval.go): its headers, its token, its time, its dates and pages.
pub mod Pages
use Prim.Native.String.{◌++◌}
use ocpi_mock_hub.Prelude.{
  ℕ, ◌-◌, ◌*◌, String, Option, none, some, List, [], ◌∷◌, ◌++◌ as ◌++ₗ◌, Bool, true, false, ◌&&◌,
  ◌||◌, not, ◌==ₛ◌, ◌==◌, contains, ltb, leb, if◌then◌else◌, is_some, ℤ, pos, negsuc, to_lower,
  trim_space,
}
use text.Mathlib.Text.{starts_with}
use ocpi_mock_hub.Auth.{Base64, auth_header_matches_token}
use ocpi_mock_hub.Correctness.Types.{TrafficEvent}
use ocpi_mock_hub.Correctness.Eval.{Tools, Stamp, ParsedUrl, header_value, unique_strings, when}

unfoldable pub validate_request_auth : TrafficEvent → List String
unfolding header_value to_lower
validate_request_auth e =
    let value = header_value e.request_headers "authorization" in
    if value ==ₛ ""
    then "The request did not include Authorization: Token ..." ∷ []
    else when (not (starts_with (to_lower value) "token "))
        "The Authorization header did not use the Token scheme."

unfoldable pub validate_inbound_ocpi_request : TrafficEvent → List String
unfolding validate_request_auth when
validate_inbound_ocpi_request e =
    validate_request_auth e
    ++ₗ when (header_value e.request_headers "x-request-id" ==ₛ "")
        "The request did not include X-Request-ID."
    ++ₗ when (header_value e.request_headers "x-correlation-id" ==ₛ "")
        "The request did not include X-Correlation-ID."
    ++ₗ when (header_value e.request_headers "ocpi-from-country-code" ==ₛ "")
        "The request did not include OCPI-From-Country-Code."
    ++ₗ when (header_value e.request_headers "ocpi-from-party-id" ==ₛ "")
        "The request did not include OCPI-From-Party-Id."

unfoldable pub validate_request_auth_matches_token :
    Base64 → TrafficEvent → String → String → List String
unfolding header_value trim_space when
validate_request_auth_matches_token base64 e expected label =
    if trim_space expected ==ₛ ""
    then ("The expected " ++ label ++ " was not available in the session state.") ∷ []
    else when
        (not (
          auth_header_matches_token base64 (header_value e.request_headers "authorization")
            expected))
        ("The request Authorization header did not use the expected " ++ label ++ ".")

unfoldable pub validate_json_content_type : TrafficEvent → List String
unfolding header_value to_lower when
validate_json_content_type e =
    let content_type = header_value e.request_headers "content-type" in
    if content_type ==ₛ ""
    then "The request did not include Content-Type: application/json." ∷ []
    else when (not (contains (to_lower content_type) "application/json"))
        "The request Content-Type was not application/json."

unfoldable pub validate_response_time : Tools → TrafficEvent → ℕ → List String
unfolding when
validate_response_time tools e max_ms = when (ltb max_ms e.duration_ms) (
    "The response took "
    ++ tools.format_int (pos e.duration_ms)
    ++ "ms which exceeded the "
    ++ tools.format_int (pos max_ms)
    ++ "ms limit.")

unfoldable pub is_success : ℕ → Bool
is_success status = leb 200 status && ltb status 300

unfoldable pub validate_http_success_status : Tools → TrafficEvent → String → List String
unfolding is_success when
validate_http_success_status tools e label = when (not (is_success e.response_status)) (
    label
    ++ " returned HTTP "
    ++ tools.format_int (pos e.response_status)
    ++ " instead of a success status.")

abbrev pub is_zero : ℤ → Bool
is_zero (pos n) = n == 0
is_zero (negsuc n) = false

-- a parsed time that is not UTC is an error
unfoldable pub utc : Option Stamp → Option Stamp → Option ℕ
utc none none = none
utc (some t) other = if is_zero t.offset then some t.instant else none
utc none (some t) = if is_zero t.offset then some t.instant else none

-- parseOCPIDateTime: the layout RFC3339Nano, or RFC3339
unfoldable pub parse_ocpi_date_time : Tools → String → Option ℕ
unfolding utc trim_space
parse_ocpi_date_time tools value =
    let v = trim_space value in
    if v ==ₛ ""
    then none
    else utc (tools.parse_time "2006-01-02T15:04:05.999999999Z07:00" v)
        (tools.parse_time "2006-01-02T15:04:05Z07:00" v)
