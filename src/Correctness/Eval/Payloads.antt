-- ===== src/Correctness/Eval/Payloads.antt =====
-- The checks of what a request or a pulled list carries (correctness/eval.go); here are the expected
-- values of an action's output, and the check of a time.
pub mod Authorize
pub mod Commands
pub mod Records
pub mod Tokens
pub mod Lists
use Prim.Native.String.{◌++◌}
use ocpi_mock_hub.Prelude.{
  ℕ, String, Option, none, some, List, [], ◌∷◌, ◌++◌ as ◌++ₗ◌, Bool, true, false, ◌&&◌, ◌||◌, not,
  ◌==ₛ◌, if◌then◌else◌, is_some, or_else, ◌>>=◌, any, all, Dict, lookup, trim_space, contains,
}
use ocpi_mock_hub.Json.{
  Json, null, str, arr, obj, Items, nil, cons, Fields, end, get, read_string, to_struct, unmarshal,
  is_empty,
}
use ocpi_mock_hub.Correctness.Types.{TrafficEvent}
use ocpi_mock_hub.Correctness.Eval.{
  Tools, OcpiEnvelope, string_value, any_slice, members_of, body_members, is_null_member, when,
}
use ocpi_mock_hub.Correctness.Eval.Requests.{parse_ocpi_date_time}
use ocpi_mock_hub.Correctness.Eval.Responses.{validate_url_like, missing_members, payload_maps}

-- strings.TrimSpace(expected[key])
unfoldable pub expected_value : Dict String → String → String
unfolding trim_space
expected_value expected key = trim_space (or_else (lookup key expected) "")

abbrev pub no_entries : Dict String → Bool
no_entries [] = true
no_entries _ = false

-- `if _, err := parseOCPIDateTime(stringValue(payload[key])); err != nil`
unfoldable pub date_member_issues : Tools → String → Fields → String → List String
unfolding parse_ocpi_date_time string_value when
date_member_issues tools key fs issue =
    when (not (is_some (parse_ocpi_date_time tools (string_value tools (get key fs))))) issue
