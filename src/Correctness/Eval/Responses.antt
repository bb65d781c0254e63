-- ===== src/Correctness/Eval/Responses.antt =====
-- The checks of a response (correctness/eval.go): the OCPI envelope and what it carries.
pub mod Discovery
use Prim.Native.String.{◌++◌}
use ocpi_mock_hub.Prelude.{
  ℕ, String, Option, none, some, List, [], ◌∷◌, ◌++◌ as ◌++ₗ◌, Bool, true, false, ◌&&◌, ◌||◌, not,
  ◌==ₛ◌, ◌==◌, ltb, leb, if◌then◌else◌, is_some, ◌>>=◌, any, ℤ, pos, negsuc, trim_space,
}
use ocpi_mock_hub.Json.{
  Json, null, str, arr, obj, Items, nil, cons, Fields, end, get, string_or_empty, read_string,
  unmarshal_json,
}
use ocpi_mock_hub.Correctness.Types.{TrafficEvent}
use ocpi_mock_hub.Correctness.Eval.{
  Tools, ParsedUrl, OcpiEnvelope, string_value, payload_members, is_null_member, when,
}
use ocpi_mock_hub.Correctness.Eval.Requests.{is_zero, is_success, parse_ocpi_date_time}

unfoldable pub is_local_host : Tools → String → Bool
is_local_host tools host =
    (host ==ₛ "localhost") || (host ==ₛ "127.0.0.1") || (host ==ₛ "::1") || tools.is_loopback host

unfoldable pub url_issue : Tools → String → Option ParsedUrl → String
unfolding is_local_host
url_issue tools raw none = "The URL " ++ tools.quote raw ++ " was not valid."
url_issue tools raw (some u) =
    if (u.scheme ==ₛ "") || (u.host ==ₛ "")
    then "The URL " ++ tools.quote raw ++ " was not valid."
    else if not (u.scheme ==ₛ "https") && not (is_local_host tools u.hostname)
    then "The URL " ++ tools.quote raw ++ " did not use https."
    else ""

-- validateURLLike: "" where there is no issue
unfoldable pub validate_url_like : Tools → String → String
unfolding url_issue trim_space
validate_url_like tools raw =
    let url = trim_space raw in
    if url ==ₛ ""
    then "Expected a URL but the value was empty."
    else url_issue tools url (tools.parse_url url)

-- `if issue := validateURLLike(raw); issue != "" { issues = append(issues, issue) }`
unfoldable pub url_issues : Tools → String → List String
unfolding validate_url_like when
url_issues tools raw = when (not (validate_url_like tools raw ==ₛ "")) (validate_url_like tools raw)

abbrev pub in_range : ℕ → ℕ → ℤ → Bool
in_range lo hi (pos n) = leb lo n && ltb n hi
in_range lo hi (negsuc n) = false

-- the issues of an envelope that was decoded
unfoldable pub envelope_issues : Tools → Bool → OcpiEnvelope → List String
unfolding when parse_ocpi_date_time
envelope_issues tools expect_success envelope =
    when (is_zero envelope.status_code) "The OCPI response did not include status_code."
    ++ₗ when (expect_success && not (in_range 1000 2000 envelope.status_code)) (
        "Expected a successful OCPI status code, got "
        ++ tools.format_int envelope.status_code
        ++ ".")
    ++ₗ when (not (is_some (parse_ocpi_date_time tools envelope.timestamp)))
        "The OCPI response timestamp was not a valid UTC OCPI DateTime."

-- parseEnvelope: the issues, or the envelope where there are none
unfoldable pub decoded_envelope :
    Tools → Bool → Option OcpiEnvelope → List String × Option OcpiEnvelope
unfolding envelope_issues
decoded_envelope tools expect_success none = ("The response body was not valid JSON." ∷ [], none)
decoded_envelope tools expect_success (some envelope) =
    (envelope_issues tools expect_success envelope, some envelope)

unfoldable pub parse_envelope : Tools → String → Bool → List String × Option OcpiEnvelope
unfolding decoded_envelope trim_space
parse_envelope tools body expect_success =
    if trim_space body ==ₛ ""
    then ("The response body was empty." ∷ [], none)
    else decoded_envelope tools expect_success (tools.read_envelope body)

-- `if len(issues) > 0 { return issues }`, after which the envelope was decoded
unfoldable pub checked :
    List String × Option OcpiEnvelope → (OcpiEnvelope → List String) → List String
checked (issue ∷ issues, envelope) continue = issue ∷ issues
checked ([], none) continue = []
checked ([], some envelope) continue = continue envelope

unfoldable pub answer_issues : Tools → Bool → ℕ → OcpiEnvelope → List String
unfolding is_success when
answer_issues tools expect_success status envelope =
    when (expect_success && not (is_success status))
      ("Expected an HTTP success status, got " ++ tools.format_int (pos status) ++ ".")
    ++ₗ when (not expect_success && is_success status)
        "Expected a non-success HTTP status for this response."
    ++ₗ when (envelope.timestamp ==ₛ "") "The OCPI response did not include timestamp."

unfoldable pub validate_ocpi_envelope_response : Tools → TrafficEvent → Bool → List String
unfolding parse_envelope checked answer_issues
validate_ocpi_envelope_response tools e expect_success =
    checked (parse_envelope tools e.response_body expect_success)
      (answer_issues tools expect_success e.response_status)

-- json.Unmarshal into a []map[string]any
unfoldable pub item_maps : Items → Option (List Fields)
item_maps nil = some []
item_maps (cons null js) = let rest = item_maps js in do fs ← rest; some (end ∷ fs)
item_maps (cons (obj f) js) = let rest = item_maps js in do fs ← rest; some (f ∷ fs)
item_maps (cons _ js) = none

unfoldable pub payload_maps : Option Json → Option (List Fields)
unfolding item_maps
payload_maps (some null) = some []
payload_maps (some (arr items)) = item_maps items
payload_maps _ = none

-- the loop over required members: those that are blank, each with its text
unfoldable pub missing_members : Tools → String → Fields → List String → List String
unfolding string_value trim_space when
missing_members tools label fs [] = []
missing_members tools label fs (k ∷ ks) =
    when (trim_space (string_value tools (get k fs)) ==ₛ "")
      ("The " ++ label ++ " did not include " ++ k ++ ".")
    ++ₗ missing_members tools label fs ks

unfoldable pub is_invalid_status : String → Bool
is_invalid_status s =
    (s ==ₛ "BLOCKED") || (s ==ₛ "EXPIRED") || (s ==ₛ "NO_CREDIT") || (s ==ₛ "NOT_ALLOWED")

unfoldable pub authorization_issues : Tools → Bool → Option Fields → List String
unfolding is_invalid_status is_null_member string_value trim_space when
authorization_issues tools expect_allowed none =
    "The authorization response data was not a valid object." ∷ []
authorization_issues tools expect_allowed (some fs) =
    let allowed = string_value tools (get "allowed" fs) in
    when (expect_allowed && not (allowed ==ₛ "ALLOWED"))
      ("Expected allowed=ALLOWED, got " ++ allowed ++ ".")
    ++ₗ when (not expect_allowed && not (is_invalid_status allowed))
        ("Expected an invalid authorization status, got " ++ allowed ++ ".")
    ++ₗ when (is_null_member (get "token" fs)) "The authorization response did not include token."
    ++ₗ when
        (expect_allowed
          && (trim_space (string_value tools (get "authorization_reference" fs)) ==ₛ ""))
        "The authorization response did not include authorization_reference for ALLOWED."

unfoldable pub validate_authorization_envelope : Tools → TrafficEvent → Bool → List String
unfolding parse_envelope checked authorization_issues payload_members
validate_authorization_envelope tools e expect_allowed =
    checked (parse_envelope tools e.response_body true) (λ (envelope : OcpiEnvelope).
      authorization_issues tools expect_allowed (payload_members envelope.payload))
