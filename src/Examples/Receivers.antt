-- ===== src/Examples/Receivers.antt =====
-- The theorems on the receivers and the location handlers at concrete inputs.
use ocpi_mock_hub.Prelude.{
  trim_space, String, ◌≡◌, refl, none, some, [], ◌∷◌, true, to_upper, lookup, lookup-put,
}
use ocpi_mock_hub.Json.{
  Json, null, str, num, arr, obj, nil, cons, Fields, end, field, Bytes, doc, get, pointer_field,
  string_field, any_field,
}
use ocpi_mock_hub.Response.{respond, ok}
use ocpi_mock_hub.MemoryStore.{MemoryStore, new_memory_store, get_session, put_session}
use ocpi_mock_hub.MemoryStore.Instance.{memory_store}
use ocpi_mock_hub.Seed.{
  Seed, evse_by_uid, evse_in, Location, Evse, location_by_id, find_location, find_evse,
}
use ocpi_mock_hub.Lifecycle.Tick.{process_session}
use ocpi_mock_hub.Sessions.{is_foreign, missing_stamp, patch_receiver_session}
use ocpi_mock_hub.Sessions.Atomic.{IsAtomic, patch_receiver_session-IsAtomic}
use ocpi_mock_hub.Sessions.Laws.{HasFields, patched_member, patch_receiver_session-merges}
use ocpi_mock_hub.Preferences.{
  ChargingPreferences, preferences_json, read_preferences, put_charging_preferences, put_body,
  put_checked, obstacle, evse_supports_preferences, profile_of, is_supported, store_preferences,
}
use ocpi_mock_hub.Records.RoundTrip.{unmarshal-marshal_session}
use ocpi_mock_hub.Records.{
  SessionRecord, marshal_session, session_fields, session_tail, unmarshal_session,
}
use ocpi_mock_hub.Preferences.Laws.{process_session-forgets_preferences}
use ocpi_mock_hub.Locations.{found, get_location, get_evse}
use ocpi_mock_hub.Locations.Laws.{in_list, get_evse-get_location, handle_start_session-occupies}
use ocpi_mock_hub.Commands.{StartSession, read_start_session, new_session, default_evse}
use ocpi_mock_hub.Commands.Handlers.{handle_start_session}
use ocpi_mock_hub.Profiles.{
  read_set_profile, trivial_profile, put_profile, get_profile, delete_profile,
}
use ocpi_mock_hub.Profiles.Laws.{report, put_profile-reported}
use ocpi_mock_hub.Examples.Worlds.{seed, location, world, format_kwh, simulator, draws, session}

-- a session that another hub pushes
abbrev pushed : Fields
pushed = field "country_code" (str "DE") (
    field "party_id" (str "AAA") (
      field "status" (str "ACTIVE") (
        field "location_id" (str "LOC1")
          (field "evse_uid" (str "EVSE1") (field "charging_periods" (arr (cons null nil)) end)))))

abbrev pushed_store : MemoryStore
pushed_store = record new_memory_store { sessions = ("S9", doc (obj pushed)) ∷ [] }

pushed-HasFields : HasFields "S9" pushed pushed_store
unfolding get_session lookup
pushed-HasFields = refl

abbrev patch : Fields
patch =
    field "last_updated" (str "t1")
      (field "id" (str "other") (field "charging_periods" (arr (cons (num 0) nil)) end))

patch_receiver_session-merges_example :
    let o =
      patch_receiver_session memory_store "DE" "AAA" "S9" (some (doc (obj patch))) pushed_store in
    (fs : Fields) × HasFields "S9" fs o.state
    × (o.reply ≡ respond (ok null))
    × ((j : String) → get j fs ≡ patched_member "DE" "AAA" "S9" j patch pushed)
unfolding is_foreign get missing_stamp to_upper
patch_receiver_session-merges_example =
    patch_receiver_session-merges "DE" "AAA" "S9" patch pushed pushed_store pushed-HasFields refl
      refl

-- another party
patch_receiver_session-IsAtomic_example :
    IsAtomic pushed_store
      (patch_receiver_session memory_store "FR" "BBB" "S9" (some (doc (obj patch))) pushed_store)
patch_receiver_session-IsAtomic_example =
    patch_receiver_session-IsAtomic memory_store "FR" "BBB" "S9" (some (doc (obj patch)))
      pushed_store

abbrev green : ChargingPreferences
green = record {
  profile_type = " green";
  departure_time = "t2";
  energy_need = none;
  discharge_allowed = none;
}

abbrev green_body : Bytes
green_body = doc (obj (field "profile_type" (str " green") (field "departure_time" (str "t2") end)))

abbrev evse : Evse
evse = record {
  uid = "EVSE1";
  status = "AVAILABLE";
  capabilities = [];
  connectors = record { id = "1"; details = end } ∷ [];
  last_updated = "t0";
  details = end;
}

-- an EVSE that takes preferences
abbrev capable_seed : Seed
capable_seed = record seed {
  locations =
      record location {
        evses = record evse { capabilities = "CHARGING_PREFERENCES_CAPABLE" ∷ [] } ∷ [];
      }
      ∷ [];
}

abbrev charging : SessionRecord
charging = session "S9" "ACTIVE"

abbrev charging_store : MemoryStore
charging_store = record new_memory_store { sessions = ("S9", marshal_session charging) ∷ [] }

charging-HasFields : HasFields "S9" (session_fields charging) charging_store
unfolding get_session lookup marshal_session
charging-HasFields = refl

green-accepted :
    (put_charging_preferences memory_store
      (some capable_seed)
      "S9"
      (some green_body)
      charging_store).reply
    ≡ respond (ok (str "ACCEPTED"))
unfolding put_charging_preferences put_body put_checked obstacle evse_supports_preferences
    profile_of is_supported to_upper trim_space get read_preferences store_preferences get_session
    lookup marshal_session session_fields session_tail evse_by_uid evse_in find_evse location_by_id
    find_location pointer_field string_field any_field
green-accepted = refl

process_session-forgets_preferences_example :
    let o =
      put_charging_preferences memory_store
        (some capable_seed)
        "S9"
        (some green_body)
        charging_store in
    let read = unmarshal_session (get_session "S9" o.state) in
    let m' = (process_session memory_store world format_kwh simulator "" draws read o.state).0 in
    (before after : Fields) × HasFields "S9" before o.state
    × (get "charging_preferences" before
        ≡ some (preferences_json (record green { profile_type = profile_of green })))
    × HasFields "S9" after m'
    × (get "charging_preferences" after ≡ none)
unfolding read_preferences get marshal_session
process_session-forgets_preferences_example =
    process_session-forgets_preferences world format_kwh simulator "" draws (some capable_seed)
      green green_body (session_fields charging) charging charging_store refl charging-HasFields
      (unmarshal-marshal_session charging) refl green-accepted

get_evse-get_location_example :
    (shown : Location) × (get_location memory_store seed "LOC1" pushed_store ≡ found shown)
    × (get_evse memory_store seed "LOC1" "EVSE1" pushed_store
        ≡ in_list (find_evse "EVSE1" shown.evses))
unfolding location_by_id find_location
get_evse-get_location_example =
    get_evse-get_location memory_store seed "LOC1" location "EVSE1" pushed_store refl

abbrev start_body : Bytes
start_body = doc (obj (field "location_id" (str "LOC1") end))

abbrev start_payload : StartSession
start_payload = record {
  response_url = "";
  location_id = "LOC1";
  evse_uid = "";
  connector_id = "";
  token = record { uid = ""; type = ""; contract_id = "" };
}

abbrev new_id : String
new_id = (new_session start_payload location "t0" "0a1b2c3d").id

abbrev after_start : MemoryStore
after_start =
    (handle_start_session memory_store seed "t0" "0a1b2c3d" "happy" (some start_body)
      new_memory_store).state

-- another session is pushed after the command
abbrev later : MemoryStore
later = put_session "S9" (doc (obj pushed)) after_start

later-keeps : lookup new_id later.sessions ≡ lookup new_id after_start.sessions
unfolding put_session new_session
later-keeps = lookup-put "S9" new_id (doc (obj pushed)) after_start.sessions

handle_start_session-occupies_example :
    let s = new_session start_payload location "t0" "0a1b2c3d" in
    (unmarshal_session (get_session s.id later) ≡ some s)
    × (s.status ≡ "PENDING")
    × (get_evse memory_store seed "LOC1" "EVSE1" later
        ≡ found (record evse { status = "CHARGING" }))
unfolding read_start_session get location_by_id find_location new_session default_evse find_evse
handle_start_session-occupies_example =
    handle_start_session-occupies seed "t0" "0a1b2c3d" "happy" start_body new_memory_store
      start_payload location evse later refl refl refl refl later-keeps

abbrev profile : Json
profile = obj (field "charging_rate_unit" (str "A") end)

abbrev set_body : Bytes
set_body = doc (
    obj (field "response_url" (str "https://emsp.test/set") (field "charging_profile" profile end)))

put_profile-reported_example :
    let m' = (put_profile memory_store (λ u. true) "S9" (some set_body) pushed_store).state in
    ((get_profile memory_store (λ u. true) "t1" "https://emsp.test/get" "S9" m').pushes
      ≡ report "t1" "https://emsp.test/get" "" profile ∷ [])
    × ((get_profile memory_store
          (λ u. true)
          "t1"
          "https://emsp.test/get"
          "S9"
          (delete_profile memory_store (λ u. true) "https://emsp.test/get" "S9" m').state).pushes
        ≡ report "t1" "https://emsp.test/get" "" trivial_profile ∷ [])
unfolding get_session lookup read_set_profile get new_memory_store
put_profile-reported_example =
    put_profile-reported (λ u. true) "S9" "t1" "https://emsp.test/get" pushed_store refl refl refl
      set_body (record { charging_profile = doc profile; response_url = "https://emsp.test/set" })
      profile refl refl refl
