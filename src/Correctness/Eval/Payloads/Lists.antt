-- ===== src/Correctness/Eval/Payloads/Lists.antt =====
-- What the lists of a pull contain (correctness/eval.go).
use ocpi_mock_hub.Prelude.{
  String, Option, none, some, List, [], ◌∷◌, ◌++◌ as ◌++ₗ◌, Bool, true, false, ◌&&◌, ◌||◌, not,
  ◌==ₛ◌, if◌then◌else◌, or_else, any, contains,
}
use ocpi_mock_hub.Json.{Items, nil, cons, Fields, get, is_empty}
use ocpi_mock_hub.Correctness.Types.{TrafficEvent}
use ocpi_mock_hub.Correctness.Eval.{Tools, OcpiEnvelope, string_value, any_slice, members_of}
use ocpi_mock_hub.Correctness.Eval.Responses.{payload_maps}

unfoldable pub payload_contains_value : List TrafficEvent → String → Bool
unfolding contains
payload_contains_value events expected =
    any (λ (e : TrafficEvent). contains e.response_body expected) events

-- the locations of one response, none of which are looked at where it does not decode
unfoldable pub listed_in : Option OcpiEnvelope → List Fields
unfolding payload_maps
listed_in none = []
listed_in (some envelope) = or_else (payload_maps envelope.payload) []

unfoldable pub listed_locations : Tools → TrafficEvent → List Fields
unfolding listed_in
listed_locations tools e = listed_in (tools.read_envelope e.response_body)

unfoldable pub has_evse_status : Tools → String → String → Items → Bool
unfolding string_value members_of
has_evse_status tools uid status nil = false
has_evse_status tools uid status (cons e es) =
    ((string_value tools (get "uid" (members_of e)) ==ₛ uid)
      && (string_value tools (get "status" (members_of e)) ==ₛ status))
    || has_evse_status tools uid status es

unfoldable pub payload_has_evse_status : Tools → List TrafficEvent → String → String → Bool
unfolding listed_locations has_evse_status any_slice
payload_has_evse_status tools events uid status =
    any
      (λ (e : TrafficEvent).
        any (λ l. has_evse_status tools uid status (any_slice (get "evses" l)))
          (listed_locations tools e))
      events

unfoldable pub all_removed : Tools → Items → Bool
unfolding string_value members_of
all_removed tools nil = true
all_removed tools (cons e es) =
    (string_value tools (get "status" (members_of e)) ==ₛ "REMOVED") && all_removed tools es

-- The loop over all locations of all responses: one of the given id without EVSEs ends it with false,
-- one whose EVSEs are all removed ends it with true.
unfoldable pub location_removed : Tools → String → List Fields → Bool
unfolding all_removed any_slice string_value
location_removed tools id [] = false
location_removed tools id (l ∷ ls) =
    let rest = location_removed tools id ls in
    let evses = any_slice (get "evses" l) in
    if not (string_value tools (get "id" l) ==ₛ id)
    then rest
    else if is_empty evses
    then false
    else if all_removed tools evses
    then true
    else rest

unfoldable pub all_locations : Tools → List TrafficEvent → List Fields
unfolding listed_locations
all_locations tools [] = []
all_locations tools (e ∷ es) = listed_locations tools e ++ₗ all_locations tools es

unfoldable pub payload_has_all_location_evses_removed : Tools → List TrafficEvent → String → Bool
unfolding location_removed all_locations
payload_has_all_location_evses_removed tools events id =
    location_removed tools id (all_locations tools events)
