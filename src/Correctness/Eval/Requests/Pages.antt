-- ===== src/Correctness/Eval/Requests/Pages.antt =====
-- validatePaginatedRequests (correctness/eval.go): the sequence of requests that pulls a list.
use Prim.Native.String.{◌++◌}
use ocpi_mock_hub.Prelude.{
  ℕ, ◌-◌, ◌*◌, String, Option, none, some, List, [], ◌∷◌, ◌++◌ as ◌++ₗ◌, Bool, true, false, ◌&&◌,
  ◌||◌, not, ◌==ₛ◌, ltb, leb, if◌then◌else◌, is_some, ℤ, pos,
}
use ocpi_mock_hub.Correctness.Types.{TrafficEvent}
use ocpi_mock_hub.Correctness.Eval.{Tools, ParsedUrl, header_value, unique_strings, when}
use ocpi_mock_hub.Correctness.Eval.Requests.{validate_inbound_ocpi_request, parse_ocpi_date_time}

-- 31*24*time.Hour, in nanoseconds
abbrev one_month : ℕ
one_month = 31 * 24 * 3600 * 1000000000

-- the two bounds, where both parse
unfoldable pub range_issues : Option ℕ → Option ℕ → List String
unfolding when
range_issues (some lo) (some hi) =
    when (leb hi lo) "date_to must be later than date_from."
    ++ₗ when (ltb one_month (hi - lo)) "The requested delta range exceeded one month."
range_issues _ _ = []

unfoldable pub date_to_issues : Tools → String → String → List String
unfolding range_issues when parse_ocpi_date_time
date_to_issues tools date_from date_to =
    if date_to ==ₛ ""
    then []
    else when (not (is_some (parse_ocpi_date_time tools date_to)))
        "date_to was not a valid OCPI DateTime in UTC."
      ++ₗ range_issues (parse_ocpi_date_time tools date_from) (parse_ocpi_date_time tools date_to)

unfoldable pub date_from_issues : Tools → String → List String
unfolding when parse_ocpi_date_time
date_from_issues tools date_from =
    if date_from ==ₛ ""
    then "Expected date_from to be present for the delta pull request." ∷ []
    else when (not (is_some (parse_ocpi_date_time tools date_from)))
        "date_from was not a valid OCPI DateTime in UTC."

unfoldable pub date_issues : Tools → Bool → String → String → List String
unfolding date_from_issues date_to_issues when
date_issues tools require_dates date_from date_to =
    if require_dates
    then date_from_issues tools date_from ++ₗ date_to_issues tools date_from date_to
    else when (not (date_from ==ₛ "") || not (date_to ==ₛ ""))
        "The full pull should not include date_from or date_to."

abbrev is_positive : Option ℤ → Bool
is_positive (some (pos n)) = ltb 0 n
is_positive _ = false

abbrev is_natural : Option ℤ → Bool
is_natural (some (pos n)) = true
is_natural _ = false

unfoldable pub number_issues : Tools → String → String → List String
unfolding when
number_issues tools limit offset =
    when (not (limit ==ₛ "") && not (is_positive (tools.atoi limit)))
      "The limit query parameter was not a positive integer."
    ++ₗ when (not (offset ==ₛ "") && not (is_natural (tools.atoi offset)))
        "The offset query parameter was not a non-negative integer."

abbrev query_of : String → Option ParsedUrl → String
query_of key none = ""
query_of key (some u) = u.query_value key

-- the part of offsetFromLink from the submatch on
unfoldable pub offset_of : Tools → Option String → String
offset_of tools none = ""
offset_of tools (some target) = query_of "offset" (tools.parse_url target)

unfoldable pub offset_from_link : Tools → String → String
unfolding offset_of
offset_from_link tools link = if link ==ₛ "" then "" else offset_of tools (tools.link_target link)

-- the first request, or one that follows the previous one
unfoldable pub order_issues : Tools → Option TrafficEvent → String → List String
unfolding offset_from_link header_value when
order_issues tools none offset =
    when (not (offset ==ₛ "") && not (offset ==ₛ "0"))
      "The first paginated request should start with offset=0."
order_issues tools (some prev) offset =
    let link = header_value prev.response_headers "link" in
    let next = offset_from_link tools link in
    when (link ==ₛ "")
      "The peer sent another page request even though the previous response did not advertise a next Link."
    ++ₗ when (not (next ==ₛ "") && not (offset ==ₛ next)) (
        "Expected the next page offset " ++ next ++ " from the previous Link header, got " ++ offset
        ++ ".")

-- The body of the loop. The issue of the first request's offset stands after the dates there, as the
-- issues of a later request's order stand after its numbers.
unfoldable pub page_issues : Tools → Bool → Option TrafficEvent → TrafficEvent → List String
unfolding validate_inbound_ocpi_request date_issues number_issues order_issues
page_issues tools require_dates prev e =
    let offset = tools.query_value e.raw_query "offset" in
    let numbers = number_issues tools (tools.query_value e.raw_query "limit") offset in
    let order = order_issues tools prev offset in
    validate_inbound_ocpi_request e
    ++ₗ date_issues tools require_dates (tools.query_value e.raw_query "date_from")
        (tools.query_value e.raw_query "date_to")
    ++ₗ (if is_some prev then numbers ++ₗ order else order ++ₗ numbers)

unfoldable pub pages_issues : Tools → Bool → Option TrafficEvent → List TrafficEvent → List String
unfolding page_issues
pages_issues tools require_dates prev [] = []
pages_issues tools require_dates prev (e ∷ es) =
    page_issues tools require_dates prev e ++ₗ pages_issues tools require_dates (some e) es

unfoldable pub validate_paginated_requests : Tools → List TrafficEvent → Bool → List String
unfolding pages_issues unique_strings
validate_paginated_requests tools events require_dates =
    unique_strings (pages_issues tools require_dates none events)
