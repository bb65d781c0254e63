-- ===== src/Correctness/Eval/Payloads/Commands.antt =====
-- The checks of the bodies of START_SESSION and STOP_SESSION (correctness/eval.go).
use Prim.Native.String.{◌++◌}
use ocpi_mock_hub.Prelude.{
  String, Option, none, some, List, [], ◌∷◌, ◌++◌ as ◌++ₗ◌, ◌&&◌, not, ◌==ₛ◌, if◌then◌else◌, ◌>>=◌,
  Dict, trim_space,
}
use ocpi_mock_hub.Json.{Json, obj, Fields, get, read_string, to_struct, unmarshal}
use ocpi_mock_hub.Correctness.Types.{TrafficEvent}
use ocpi_mock_hub.Correctness.Eval.{Tools, string_value, body_members, when}
use ocpi_mock_hub.Correctness.Eval.Responses.{validate_url_like}
use ocpi_mock_hub.Correctness.Eval.Payloads.{expected_value, no_entries}

unfoldable pub token_member_issues : Tools → Option Json → List String
unfolding string_value trim_space when
token_member_issues tools (some (obj token)) =
    when (trim_space (string_value tools (get "uid" token)) ==ₛ "")
      "The START_SESSION payload token did not include uid."
token_member_issues tools _ = "The START_SESSION payload did not include token." ∷ []

unfoldable pub command_issues : Tools → String → Option Fields → List String
unfolding validate_url_like token_member_issues string_value trim_space when
command_issues tools command none = "The command request body was not valid JSON." ∷ []
command_issues tools command (some fs) =
    if command ==ₛ "START_SESSION"
    then when (not (validate_url_like tools (string_value tools (get "response_url" fs)) ==ₛ ""))
        "The START_SESSION payload did not include a valid response_url."
      ++ₗ when (trim_space (string_value tools (get "location_id" fs)) ==ₛ "")
          "The START_SESSION payload did not include location_id."
      ++ₗ token_member_issues tools (get "token" fs)
    else when (trim_space (string_value tools (get "session_id" fs)) ==ₛ "")
        "The STOP_SESSION payload did not include session_id."

unfoldable pub validate_command_payload : Tools → TrafficEvent → String → List String
unfolding command_issues body_members
validate_command_payload tools e command =
    command_issues tools command (body_members tools e.request_body)

pub record StartTarget : Type 0 where
  pub location_id : String
  pub evse_uid : String
  pub connector_id : String
  pub token_uid : String
  pub token_type : String

unfoldable pub read_target_token : Fields → Option (String × String)
read_target_token fs = do uid ← read_string "uid" fs; type ← read_string "type" fs; some (uid, type)

unfoldable pub read_target : Fields → Option StartTarget
unfolding read_target_token
read_target fs = do
  location_id ← read_string "location_id" fs
  evse_uid ← read_string "evse_uid" fs
  connector_id ← read_string "connector_id" fs
  token ← to_struct read_target_token (get "token" fs)
  some (record {
    location_id = location_id;
    evse_uid = evse_uid;
    connector_id = connector_id;
    token_uid = token.0;
    token_type = token.1;
  })

-- a member that must be the expected one, and one that must be it when it is given
unfoldable pub must_equal : String → String → String → List String
unfolding trim_space when
must_equal name wanted got =
    when (not (wanted ==ₛ "") && not (trim_space got ==ₛ wanted))
      ("Expected START_SESSION " ++ name ++ " " ++ wanted ++ ", got " ++ got ++ ".")

unfoldable pub may_equal : String → String → String → List String
unfolding trim_space when
may_equal name wanted got =
    when (not (wanted ==ₛ "") && not (trim_space got ==ₛ "") && not (trim_space got ==ₛ wanted))
      ("Expected START_SESSION " ++ name ++ " " ++ wanted ++ " when provided, got " ++ got ++ ".")

unfoldable pub target_issues : Dict String → Option StartTarget → List String
unfolding must_equal may_equal expected_value
target_issues expected none = "The START_SESSION payload was not valid JSON." ∷ []
target_issues expected (some t) =
    must_equal "location_id" (expected_value expected "location_id") t.location_id
    ++ₗ may_equal "evse_uid" (expected_value expected "evse_uid") t.evse_uid
    ++ₗ may_equal "connector_id" (expected_value expected "connector_id") t.connector_id
    ++ₗ must_equal "token.uid" (expected_value expected "token_uid") t.token_uid
    ++ₗ may_equal "token.type" (expected_value expected "token_type") t.token_type

unfoldable pub validate_start_session_expectations :
    Tools → TrafficEvent → Dict String → List String
unfolding target_issues read_target
validate_start_session_expectations tools e expected =
    if no_entries expected
    then []
    else target_issues expected (unmarshal read_target (tools.parse_json e.request_body))
