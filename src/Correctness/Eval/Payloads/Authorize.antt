-- ===== src/Correctness/Eval/Payloads/Authorize.antt =====
-- What a request for authorization is about (validateAuthorizeRequest, correctness/eval.go).
use Prim.Native.String.{◌++◌}
use ocpi_mock_hub.Prelude.{
  String, Option, none, some, List, [], ◌∷◌, ◌++◌ as ◌++ₗ◌, ◌&&◌, not, ◌==ₛ◌, if◌then◌else◌, Dict,
  trim_space, contains,
}
use ocpi_mock_hub.Json.{Fields, get}
use ocpi_mock_hub.Correctness.Types.{TrafficEvent}
use ocpi_mock_hub.Correctness.Eval.{Tools, string_value, body_members, when}
use ocpi_mock_hub.Correctness.Eval.Payloads.{expected_value, no_entries}

unfoldable pub authorize_location_issues : Tools → String → Option Fields → List String
unfolding when string_value trim_space
authorize_location_issues tools location none =
    "The authorization request body was not valid JSON." ∷ []
authorize_location_issues tools location (some fs) =
    let got = trim_space (string_value tools (get "location_id" fs)) in
    when (not (got ==ₛ location))
      ("Expected authorization location_id " ++ location ++ ", got " ++ got ++ ".")

unfoldable pub validate_authorize_request : Tools → TrafficEvent → Dict String → List String
unfolding expected_value authorize_location_issues body_members contains when
validate_authorize_request tools e expected =
    let uid = expected_value expected "uid" in
    let location = expected_value expected "location_id" in
    if no_entries expected
    then []
    else when (not (uid ==ₛ "") && not (contains e.path ("/" ++ uid ++ "/authorize"))) (
        "Expected the authorization request to target token UID " ++ uid ++ ", got " ++ e.path
        ++ ".")
      ++ₗ (if location ==ₛ ""
          then []
          else authorize_location_issues tools location (body_members tools e.request_body))
