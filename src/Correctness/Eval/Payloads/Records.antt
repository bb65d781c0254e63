-- ===== src/Correctness/Eval/Payloads/Records.antt =====
-- The checks of pushed EVSE updates, sessions and CDRs (correctness/eval.go).
use Prim.Native.String.{◌++◌}
use ocpi_mock_hub.Prelude.{
  String, Option, none, some, List, [], ◌∷◌, ◌++◌ as ◌++ₗ◌, Bool, false, ◌||◌, not, ◌==ₛ◌,
  if◌then◌else◌,
}
use ocpi_mock_hub.Json.{Items, nil, cons, Fields, get, is_empty}
use ocpi_mock_hub.Correctness.Types.{TrafficEvent}
use ocpi_mock_hub.Correctness.Eval.{
  Tools, string_value, any_slice, members_of, body_members, is_null_member, when,
}
use ocpi_mock_hub.Correctness.Eval.Responses.{missing_members}
use ocpi_mock_hub.Correctness.Eval.Payloads.{date_member_issues}

unfoldable pub location_patch_issues : Tools → Option Fields → List String
unfolding date_member_issues string_value when
location_patch_issues tools none = "The EVSE status update body was not valid JSON." ∷ []
location_patch_issues tools (some fs) =
    when (string_value tools (get "status" fs) ==ₛ "")
      "The EVSE status update did not include status."
    ++ₗ date_member_issues tools "last_updated" fs
        "The EVSE status update last_updated field was not a valid OCPI DateTime."

unfoldable pub validate_location_patch_payload : Tools → TrafficEvent → List String
unfolding location_patch_issues body_members
validate_location_patch_payload tools e =
    location_patch_issues tools (body_members tools e.request_body)

unfoldable pub session_issues : Tools → String → Option Fields → List String
unfolding missing_members date_member_issues is_null_member string_value when
session_issues tools status none = "The Session body was not valid JSON." ∷ []
session_issues tools status (some fs) =
    missing_members tools "Session body" fs
      ("country_code" ∷ "party_id" ∷ "id" ∷ "start_date_time" ∷ "status" ∷ "last_updated" ∷ [])
    ++ₗ when (is_null_member (get "kwh" fs)) "The Session body did not include kwh."
    ++ₗ when (not (string_value tools (get "status" fs) ==ₛ status)) (
        "Expected Session status "
        ++ status
        ++ ", got "
        ++ string_value tools (get "status" fs)
        ++ ".")
    ++ₗ date_member_issues tools "start_date_time" fs
        "The Session start_date_time field was not a valid OCPI DateTime."
    ++ₗ date_member_issues tools "last_updated" fs
        "The Session last_updated field was not a valid OCPI DateTime."
    ++ₗ (if status ==ₛ "COMPLETED"
        then date_member_issues tools "end_date_time" fs
            "A COMPLETED Session should include a valid end_date_time."
        else [])

unfoldable pub validate_session_payload : Tools → TrafficEvent → String → List String
unfolding session_issues body_members
validate_session_payload tools e status =
    session_issues tools status (body_members tools e.request_body)

-- the loops of hasDimensionType
unfoldable pub has_dimension : Tools → String → Items → Bool
unfolding string_value members_of
has_dimension tools expected nil = false
has_dimension tools expected (cons d ds) =
    (string_value tools (get "type" (members_of d)) ==ₛ expected) || has_dimension tools expected ds

unfoldable pub has_dimension_type : Tools → String → Items → Bool
unfolding has_dimension any_slice members_of
has_dimension_type tools expected nil = false
has_dimension_type tools expected (cons p ps) =
    has_dimension tools expected (any_slice (get "dimensions" (members_of p)))
    || has_dimension_type tools expected ps

unfoldable pub period_issues : Tools → Items → List String
unfolding has_dimension_type when
period_issues tools periods =
    if is_empty periods
    then "The CDR body did not include charging_periods." ∷ []
    else when (not (has_dimension_type tools "TIME" periods))
        "The CDR charging_periods did not include a TIME dimension."

unfoldable pub cdr_issues : Tools → Option Fields → List String
unfolding missing_members date_member_issues is_null_member period_issues any_slice when
cdr_issues tools none = "The CDR body was not valid JSON." ∷ []
cdr_issues tools (some fs) =
    missing_members tools "CDR body" fs (
      "country_code" ∷ "party_id" ∷ "id" ∷ "start_date_time" ∷ "end_date_time" ∷ "auth_method"
      ∷ "currency" ∷ "last_updated" ∷ [])
    ++ₗ when (is_null_member (get "cdr_token" fs)) "The CDR body did not include cdr_token."
    ++ₗ when (is_null_member (get "cdr_location" fs)) "The CDR body did not include cdr_location."
    ++ₗ when
        (is_null_member (get "total_cost" fs)
          || is_null_member (get "total_energy" fs)
          || is_null_member (get "total_time" fs))
        "The CDR body did not include total_cost, total_energy, and total_time."
    ++ₗ date_member_issues tools "start_date_time" fs
        "The CDR start_date_time field was not a valid OCPI DateTime."
    ++ₗ date_member_issues tools "end_date_time" fs
        "The CDR end_date_time field was not a valid OCPI DateTime."
    ++ₗ date_member_issues tools "last_updated" fs
        "The CDR last_updated field was not a valid OCPI DateTime."
    ++ₗ period_issues tools (any_slice (get "charging_periods" fs))

unfoldable pub validate_cdr_payload : Tools → TrafficEvent → List String
unfolding cdr_issues body_members
validate_cdr_payload tools e = cdr_issues tools (body_members tools e.request_body)
