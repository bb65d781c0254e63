-- ===== src/Examples/Commands.antt =====
-- The theorems on the commands at concrete inputs.
use ocpi_mock_hub.Prelude.{◌≡◌, refl, some, lookup}
use Prim.Native.String.{◌++◌}
use ocpi_mock_hub.Json.{Bytes, doc, obj, str, field, end, get}
use ocpi_mock_hub.MemoryStore.{MemoryStore, new_memory_store, get_session, get_mode}
use ocpi_mock_hub.MemoryStore.Instance.{memory_store}
use ocpi_mock_hub.Records.{SessionRecord}
use ocpi_mock_hub.Records.RoundTrip.{unmarshal-marshal_session}
use ocpi_mock_hub.Seed.{location_by_id, find_location}
use ocpi_mock_hub.Lifecycle.Machine.{IsStored}
use ocpi_mock_hub.Lifecycle.Billing.{HasBill}
use ocpi_mock_hub.Lifecycle.Progress.{round}
use ocpi_mock_hub.Commands.{StartSession, read_start_session, read_stop_session}
use ocpi_mock_hub.Commands.Handlers.{handle_start_session, handle_stop_session, post_command}
use ocpi_mock_hub.Commands.Laws.{IsIdle, post_command-rejects}
use ocpi_mock_hub.Lifecycle.Reservations.{is_older}
use ocpi_mock_hub.Commands.Lifespan.{handle_start_session-completes}
use ocpi_mock_hub.Commands.Stop.{handle_stop_session-bills}
use ocpi_mock_hub.Examples.Worlds.{
  seed, location, world, later, format_kwh, simulator, draws, ended, two_sessions,
}

abbrev start_body : Bytes
start_body = doc (
    obj (
      field "response_url" (str "https://emsp.test/callback")
        (field "location_id" (str "LOC1") (field "token" (obj (field "uid" (str "U1") end)) end))))

abbrev start_payload : StartSession
start_payload = record {
  response_url = "https://emsp.test/callback";
  location_id = "LOC1";
  evse_uid = "";
  connector_id = "";
  token = record { uid = "U1"; type = ""; contract_id = "" };
}

abbrev stop_body : Bytes
stop_body = doc (obj (field "session_id" (str "S2") end))

IsStored-ended : IsStored "S2" ended two_sessions
unfolding get_session lookup
IsStored-ended = unmarshal-marshal_session ended

-- a session that is COMPLETED already
handle_stop_session-bills_example :
    let m' = (handle_stop_session memory_store "t1" "happy" (some stop_body) two_sessions).state in
    (next : SessionRecord) × IsStored "S2" next m'
    × (next.status ≡ "STOPPING")
    × HasBill later format_kwh simulator "" draws next m'
        (round format_kwh simulator "" later draws "S2" m')
unfolding read_stop_session get
handle_stop_session-bills_example =
    handle_stop_session-bills "t1" "happy" stop_body two_sessions later format_kwh simulator ""
      draws (record { response_url = ""; session_id = "S2" }) ended refl refl refl IsStored-ended
      refl

abbrev rejecting : MemoryStore
rejecting = record two_sessions { mode = "reject" }

post_command-rejects_example :
    IsIdle rejecting
      (post_command memory_store seed "t1" "0a1b2c3d" "stop_session" (some stop_body) rejecting)
unfolding get_mode
post_command-rejects_example =
    post_command-rejects memory_store seed "t1" "0a1b2c3d" "stop_session" (some stop_body) rejecting
      refl

handle_start_session-completes_example :
    let m' =
      (handle_start_session memory_store seed "t0" "0a1b2c3d" "happy"
        (some start_body)
        new_memory_store).state in
    (next : SessionRecord) × IsStored ("MOCK-" ++ "0a1b2c3d") next (
      round format_kwh simulator "" later draws
        ("MOCK-" ++ "0a1b2c3d")
        (round format_kwh simulator "" world draws ("MOCK-" ++ "0a1b2c3d") m'))
    × (next.status ≡ "COMPLETED")
unfolding read_start_session get location_by_id find_location is_older
handle_start_session-completes_example =
    handle_start_session-completes seed "t0" "0a1b2c3d" "happy" start_body new_memory_store
      format_kwh simulator "" world later draws draws start_payload location 2000000 refl refl refl
      refl refl refl refl
