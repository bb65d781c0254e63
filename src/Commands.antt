-- ===== src/Commands.antt =====
-- The command handlers (handlers/commands.go), over the store that storeForRequest picks and the seed
-- that seedForRequest picks. `now` is the formatted time of the request, and `uuid` the first eight
-- characters of a new UUID. A callback that a handler sends from a goroutine is a push of its outcome.
pub mod Handlers
pub mod Laws
pub mod Stop
pub mod Lifespan
use ocpi_mock_hub.Prelude.{
  String, Option, none, some, List, [], ◌∷◌, Bool, true, false, ◌&&◌, ◌==ₛ◌, if◌then◌else◌,
  to_upper, not, or_else, ◌>>=◌,
}
use Prim.Native.String.{◌++◌}
use ocpi_mock_hub.Json.{
  Json, null, str, obj, nil, Fields, end, field, Bytes, no_bytes, is_nil, get, unmarshal,
  read_string, to_struct,
}
use ocpi_mock_hub.Response.{Outcome, Reply, respond, reply_with, ok, error, Push}
use ocpi_mock_hub.Store.{Store, text_or_empty, bytes_or_nil}
use ocpi_mock_hub.Seed.{Seed, Location, Evse, Connector, location_by_id}
use ocpi_mock_hub.Records.{
  SessionRecord, marshal_session, unmarshal_session, ReservationRecord, marshal_reservation,
}

pub record PayloadToken : Type 0 where
  pub uid : String
  pub type : String
  pub contract_id : String

read_token : Fields → Option PayloadToken
read_token fs = do
  country_code ← read_string "country_code" fs
  party_id ← read_string "party_id" fs
  uid ← read_string "uid" fs
  type ← read_string "type" fs
  contract_id ← read_string "contract_id" fs
  some (record { uid = uid; type = type; contract_id = contract_id })

pub record StartSession : Type 0 where
  pub response_url : String
  pub location_id : String
  pub evse_uid : String
  pub connector_id : String
  pub token : PayloadToken

unfoldable pub read_start_session : Fields → Option StartSession
unfolding read_token
read_start_session fs = do
  response_url ← read_string "response_url" fs
  location_id ← read_string "location_id" fs
  evse_uid ← read_string "evse_uid" fs
  connector_id ← read_string "connector_id" fs
  token ← to_struct read_token (get "token" fs)
  some (record {
    response_url = response_url;
    location_id = location_id;
    evse_uid = evse_uid;
    connector_id = connector_id;
    token = token;
  })

pub record StopSession : Type 0 where
  pub response_url : String
  pub session_id : String

unfoldable pub read_stop_session : Fields → Option StopSession
read_stop_session fs = do
  response_url ← read_string "response_url" fs
  session_id ← read_string "session_id" fs
  some (record { response_url = response_url; session_id = session_id })

pub record ReserveNow : Type 0 where
  pub response_url : String
  pub reservation_id : String
  pub location_id : String
  pub evse_uid : String
  pub expiry_date : String
  pub token : PayloadToken

unfoldable pub read_reserve_now : Fields → Option ReserveNow
unfolding read_token
read_reserve_now fs = do
  response_url ← read_string "response_url" fs
  reservation_id ← read_string "reservation_id" fs
  location_id ← read_string "location_id" fs
  evse_uid ← read_string "evse_uid" fs
  expiry_date ← read_string "expiry_date" fs
  token ← to_struct read_token (get "token" fs)
  some (record {
    response_url = response_url;
    reservation_id = reservation_id;
    location_id = location_id;
    evse_uid = evse_uid;
    expiry_date = expiry_date;
    token = token;
  })

unfoldable pub read_cancel_reservation : Fields → Option String
read_cancel_reservation fs = do
  response_url ← read_string "response_url" fs
  read_string "reservation_id" fs

pub record UnlockConnector : Type 0 where
  pub response_url : String
  pub location_id : String

unfoldable pub read_unlock_connector : Fields → Option UnlockConnector
read_unlock_connector fs = do
  response_url ← read_string "response_url" fs
  location_id ← read_string "location_id" fs
  evse_uid ← read_string "evse_uid" fs
  connector_id ← read_string "connector_id" fs
  some (record { response_url = response_url; location_id = location_id })

abbrev pub result_json : String → Json
result_json r = obj (field "result" (str r) end)

-- the first EVSE of the location, and its first connector, where the payload names none
abbrev first_connector : List Connector → String → String
first_connector [] given = given
first_connector (c ∷ cs) given = if given ==ₛ "" then c.id else given

unfoldable pub default_evse : String → List Evse → String
default_evse given [] = given
default_evse given (e ∷ es) = if given ==ₛ "" then e.uid else given

default_connector : String → String → List Evse → String
default_connector evse_uid given [] = given
default_connector evse_uid given (e ∷ es) =
    if evse_uid ==ₛ "" then first_connector e.connectors given else given

unfoldable pub new_session : StartSession → Location → String → String → SessionRecord
unfolding default_evse default_connector
new_session p loc now uuid =
    let evse_uid = default_evse p.evse_uid loc.evses in
    record {
      country_code = loc.country_code;
      party_id = loc.party_id;
      id = "MOCK-" ++ uuid;
      start_date_time = now;
      end_date_time = none;
      kwh = 0;
      cdr_token = record {
        uid = p.token.uid;
        type = if p.token.type ==ₛ "" then "RFID" else p.token.type;
        contract_id = p.token.contract_id;
      };
      auth_method = "COMMAND";
      authorization_reference = "";
      location_id = loc.id;
      evse_uid = evse_uid;
      connector_id = default_connector p.evse_uid p.connector_id loc.evses;
      meter_id = "METER-" ++ evse_uid;
      currency = "EUR";
      total_cost = null;
      status = "PENDING";
      charging_periods = nil;
      last_updated = now;
      response_url = p.response_url;
      created_at = now;
      activated_at = "";
      callback_sent = false;
    }

-- what STOP_SESSION does to a stored session
unfoldable pub stopped : String → String → SessionRecord → SessionRecord
stopped response_url now s =
    let t = record s { status = "STOPPING"; last_updated = now } in
    if response_url ==ₛ ""
    then t
    else record t { response_url = response_url; callback_sent = false }

unfoldable pub reservation_id : ReserveNow → String → String
reservation_id p uuid = if p.reservation_id ==ₛ "" then "RES-" ++ uuid else p.reservation_id

unfoldable pub new_reservation : ReserveNow → Location → String → String → ReservationRecord
unfolding default_evse reservation_id
new_reservation p loc now uuid = record {
  id = reservation_id p uuid;
  location_id = loc.id;
  evse_uid = default_evse p.evse_uid loc.evses;
  expiry_date = p.expiry_date;
  status = "RESERVED";
  token_uid = p.token.uid;
  last_updated = now;
  response_url = p.response_url;
  created_at = now;
  callback_sent = false;
}
