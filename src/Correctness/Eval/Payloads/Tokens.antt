-- ===== src/Correctness/Eval/Payloads/Tokens.antt =====
-- validateTokenPayload and tokenPushPendingMessage (correctness/eval.go): the Token object that the
-- peer pushes. The range over the map of expected members visits them in the order of the source.
use Prim.Native.String.{◌++◌}
use ocpi_mock_hub.Prelude.{
  String, Option, none, some, List, [], ◌∷◌, ◌++◌ as ◌++ₗ◌, Bool, true, false, ◌&&◌, not, ◌==ₛ◌,
  if◌then◌else◌, Dict, to_lower, trim_space, trim_prefix, split_slash, join,
}
use ocpi_mock_hub.Json.{Json, bool, Fields, get}
use ocpi_mock_hub.Correctness.Types.{TrafficEvent}
use ocpi_mock_hub.Correctness.Eval.{Tools, string_value, body_members, when}
use ocpi_mock_hub.Correctness.Eval.Responses.{missing_members}
use ocpi_mock_hub.Correctness.Eval.Payloads.{expected_value, date_member_issues}

-- `payload["valid"].(bool)`
unfoldable pub bool_member : Option Json → Option Bool
bool_member (some (bool b)) = some b
bool_member _ = none

unfoldable pub valid_issues : Bool → Option Bool → List String
unfolding when
valid_issues require_invalid none =
    "The Token body did not include a boolean valid field."
    ∷ when require_invalid "Expected the invalidation Token push to set valid=false."
valid_issues require_invalid (some valid) =
    when (require_invalid && valid) "Expected the invalidation Token push to set valid=false."

unfoldable pub part_issues : String → String → String → List String
unfolding when
part_issues name got part =
    when (not (got ==ₛ "") && not (part ==ₛ got))
      ("The Token path " ++ name ++ " did not match the body.")

unfoldable pub path_issues : Tools → Fields → List String → List String
unfolding part_issues string_value
path_issues tools fs (cc ∷ pid ∷ uid ∷ rest) =
    part_issues "country_code" (string_value tools (get "country_code" fs)) cc
    ++ₗ part_issues "party_id" (string_value tools (get "party_id" fs)) pid
    ++ₗ part_issues "uid" (string_value tools (get "uid" fs)) uid
path_issues tools fs _ =
    "The Token request path did not contain country_code, party_id, and uid." ∷ []

unfoldable pub profile_issues : Tools → Dict String → Fields → List String → List String
unfolding expected_value string_value trim_space when
profile_issues tools expected fs [] = []
profile_issues tools expected fs (k ∷ ks) =
    let wanted = expected_value expected k in
    let got = trim_space (string_value tools (get k fs)) in
    when (not (wanted ==ₛ "") && not (got ==ₛ wanted))
      ("Expected Token " ++ k ++ " " ++ wanted ++ ", got " ++ got ++ ".")
    ++ₗ profile_issues tools expected fs ks

unfoldable pub is_formatted : Option Bool → String → Bool
is_formatted none s = false
is_formatted (some true) s = s ==ₛ "true"
is_formatted (some false) s = s ==ₛ "false"

unfoldable pub expected_valid_issues : Dict String → Option Bool → List String
unfolding expected_value to_lower is_formatted when
expected_valid_issues expected valid =
    let wanted = expected_value expected "valid" in
    when (not (wanted ==ₛ "") && not (is_formatted valid (to_lower wanted)))
      ("Expected Token valid=" ++ to_lower wanted ++ ".")

unfoldable pub token_issues :
    Tools → TrafficEvent → Bool → Dict String → Option Fields → List String
unfolding missing_members bool_member valid_issues date_member_issues path_issues split_slash
    trim_prefix string_value profile_issues expected_valid_issues when
token_issues tools e require_invalid expected none = "The Token body was not valid JSON." ∷ []
token_issues tools e require_invalid expected (some fs) =
    let query_type = tools.query_value e.raw_query "type" in
    missing_members tools "Token body" fs (
      "country_code" ∷ "party_id" ∷ "uid" ∷ "type" ∷ "contract_id" ∷ "issuer" ∷ "whitelist"
      ∷ "last_updated" ∷ [])
    ++ₗ valid_issues require_invalid (bool_member (get "valid" fs))
    ++ₗ date_member_issues tools "last_updated" fs
        "The Token last_updated field was not a valid OCPI DateTime."
    ++ₗ path_issues tools fs (split_slash (trim_prefix "/ocpi/2.2.1/receiver/tokens/" e.path))
    ++ₗ when (not (query_type ==ₛ "") && not (query_type ==ₛ string_value tools (get "type" fs)))
        "The Token type query parameter did not match the body."
    ++ₗ profile_issues tools expected fs
        ("uid" ∷ "type" ∷ "contract_id" ∷ "issuer" ∷ "whitelist" ∷ [])
    ++ₗ expected_valid_issues expected (bool_member (get "valid" fs))

unfoldable pub validate_token_payload : Tools → TrafficEvent → Bool → Dict String → List String
unfolding token_issues body_members
validate_token_payload tools e require_invalid expected =
    token_issues tools e require_invalid expected (body_members tools e.request_body)

-- the details of a pending message: the expected members that are not blank
unfoldable pub profile_details : Dict String → List String → List String
unfolding expected_value
profile_details expected [] = []
profile_details expected (k ∷ ks) =
    let value = expected_value expected k in
    let rest = profile_details expected ks in
    if value ==ₛ "" then rest else (k ++ "=" ++ value) ∷ rest

unfoldable pub valid_details : Dict String → Bool → List String
unfolding expected_value to_lower when
valid_details expected require_invalid =
    let value = expected_value expected "valid" in
    if value ==ₛ "" then when require_invalid "valid=false" else ("valid=" ++ to_lower value) ∷ []

unfoldable pub with_profile : String → List String → String
unfolding join
with_profile message [] = message
with_profile message (d ∷ ds) = message ++ " Expected profile: " ++ join ", " (d ∷ ds) ++ "."

unfoldable pub token_push_pending_message : Dict String → Bool → String
unfolding profile_details valid_details with_profile
token_push_pending_message expected require_invalid =
    with_profile "Waiting for the peer to push a Token object." (
      profile_details expected ("uid" ∷ "type" ∷ "contract_id" ∷ "issuer" ∷ "whitelist" ∷ [])
      ++ₗ valid_details expected require_invalid)
