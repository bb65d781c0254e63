-- ===== src/Preferences.antt =====
-- PutChargingPreferences (handlers/charging_preferences.go).
pub mod Accepted
pub mod Laws
use ocpi_mock_hub.Prelude.{
  String, Option, none, some, List, [], ◌∷◌, Bool, true, false, ◌==ₛ◌, ◌&&◌, ◌||◌, if◌then◌else◌,
  not, to_upper, trim_space, any, is_some, ◌>>=◌,
}
use ocpi_mock_hub.Json.{
  Json, null, bool, num, str, obj, Fields, end, field, Bytes, doc, is_nil, get, put, Float64,
  MapResult, map_error, nil_map, map_ok, unmarshal_map, unmarshal, read_string, string_field,
  string_or_empty,
}
use ocpi_mock_hub.Response.{Outcome, reply_with, ok, error}
use ocpi_mock_hub.Store.{Store}
use ocpi_mock_hub.Seed.{Seed, Evse, EvseLookup, no_location, no_evse, found_evse, evse_by_uid}

-- chargingPreferences: the pointers are nil where the member is missing or null
pub record ChargingPreferences : Type 0 where
  pub profile_type : String
  pub departure_time : String
  pub energy_need : Option Float64
  pub discharge_allowed : Option Bool

abbrev to_float_pointer : Option Json → Option (Option Float64)
to_float_pointer none = some none
to_float_pointer (some null) = some none
to_float_pointer (some (num x)) = some (some x)
to_float_pointer (some _) = none

abbrev to_bool_pointer : Option Json → Option (Option Bool)
to_bool_pointer none = some none
to_bool_pointer (some null) = some none
to_bool_pointer (some (bool b)) = some (some b)
to_bool_pointer (some _) = none

unfoldable pub read_preferences : Fields → Option ChargingPreferences
read_preferences fs = do
  profile_type ← read_string "profile_type" fs
  departure_time ← read_string "departure_time" fs
  energy_need ← to_float_pointer (get "energy_need" fs)
  discharge_allowed ← to_bool_pointer (get "discharge_allowed" fs)
  some (record {
    profile_type = profile_type;
    departure_time = departure_time;
    energy_need = energy_need;
    discharge_allowed = discharge_allowed;
  })

float_field : String → Option Float64 → Fields → Fields
float_field k none fs = fs
float_field k (some x) fs = field k (num x) fs

bool_field : String → Option Bool → Fields → Fields
bool_field k none fs = fs
bool_field k (some b) fs = field k (bool b) fs

unfoldable pub preferences_json : ChargingPreferences → Json
unfolding float_field bool_field
preferences_json p = obj (
    field "profile_type" (str p.profile_type) (
      string_field "departure_time" p.departure_time (
        float_field "energy_need" p.energy_need
          (bool_field "discharge_allowed" p.discharge_allowed end))))

-- supportedProfileTypes
unfoldable pub is_supported : String → Bool
is_supported t = (t ==ₛ "REGULAR") || (t ==ₛ "GREEN") || (t ==ₛ "FAST") || (t ==ₛ "CHEAP")

-- the map of the stored session, in which a failed Unmarshal leaves no member
abbrev pub session_map : MapResult → Fields
session_map map_error = end
session_map nil_map = end
session_map (map_ok fs) = fs

abbrev is_capable : EvseLookup → Bool
is_capable no_location = false
is_capable (no_evse l) = false
is_capable (found_evse l e) = any (λ c. c ==ₛ "CHARGING_PREFERENCES_CAPABLE") e.capabilities

-- sessionEVSESupportsChargingPreferences
unfoldable pub evse_supports_preferences : Fields → Option Seed → Bool
evse_supports_preferences session none = false
evse_supports_preferences session (some seed) =
    let evse_uid = string_or_empty (get "evse_uid" session) in
    let location_id = string_or_empty (get "location_id" session) in
    if (evse_uid ==ₛ "") || (location_id ==ₛ "")
    then false
    else is_capable (evse_by_uid seed location_id evse_uid)

-- the profile type in the enum's spelling
unfoldable pub profile_of : ChargingPreferences → String
profile_of p = to_upper (trim_space p.profile_type)

-- The answer of the checks that come after the profile type is known: "" where all pass.
unfoldable pub obstacle : Option Seed → Fields → ChargingPreferences → String
obstacle seed session p =
    if not (to_upper (string_or_empty (get "status" session)) ==ₛ "ACTIVE")
    then "NOT_POSSIBLE"
    else if not (evse_supports_preferences session seed)
    then "NOT_POSSIBLE"
    else if ((profile_of p ==ₛ "CHEAP") || (profile_of p ==ₛ "GREEN")) && (p.departure_time ==ₛ "")
    then "DEPARTURE_REQUIRED"
    else if (profile_of p ==ₛ "CHEAP") && not (is_some p.energy_need)
    then "ENERGY_NEED_REQUIRED"
    else ""

unfoldable pub with_preferences : ChargingPreferences → Fields → Fields
unfolding profile_of
with_preferences p session =
    put "charging_preferences" (preferences_json (record p { profile_type = profile_of p })) session

module _ (store : Store) (seed : Option Seed) (id : String) where
  unfoldable pub store_preferences : Fields → store.State → Outcome store.State
  store_preferences fs s = elim (store.put_session id (doc (obj fs)) s) [
    | none ↦ reply_with s (error 500 3000 "Failed to persist preferences")
    | some s' ↦ reply_with s' (ok (str "ACCEPTED"))
  ]

  unfoldable pub put_checked : ChargingPreferences → Fields → store.State → Outcome store.State
  unfolding store_preferences obstacle with_preferences
  put_checked p session s =
      if profile_of p ==ₛ ""
      then reply_with s (error 400 2003 "profile_type is required")
      else if not (is_supported (profile_of p))
      then reply_with s (ok (str "PROFILE_TYPE_NOT_SUPPORTED"))
      else if not (obstacle seed session p ==ₛ "")
      then reply_with s (ok (str (obstacle seed session p)))
      else store_preferences (with_preferences p session) s

  unfoldable pub put_body : Option Bytes → Bytes → store.State → Outcome store.State
  unfolding put_checked
  put_body none existing s = reply_with s (error 400 2000 "Failed to read body")
  put_body (some body) existing s = elim (unmarshal read_preferences body) [
    | none ↦ reply_with s (error 400 2003 "Invalid JSON")
    | some p ↦ put_checked p (session_map (unmarshal_map existing)) s
  ]

  unfoldable pub put_charging_preferences : Option Bytes → store.State → Outcome store.State
  unfolding put_body
  put_charging_preferences body s = elim (store.get_session id s) [
    | none ↦ reply_with s (error 500 3000 "Failed to read session")
    | some existing ↦
        if is_nil existing
        then reply_with s (error 404 2004 "Session not found")
        else put_body body existing s
  ]
