-- ===== src/Records.antt =====
-- The records that the store keeps as JSON: SessionRecord (ocpiutil/records.go), ReservationRecord
-- (handlers/commands.go) and the narrower reservationRecord of simulation/lifecycle.go, each with what
-- json.Unmarshal and json.Marshal make of it.
pub mod RoundTrip
use ocpi_mock_hub.Prelude.{String, Option, none, some, Bool, ◌>>=◌}
use ocpi_mock_hub.Json.{
  Json, null, str, num, obj, Items, Fields, end, field, Bytes, doc, get, Float64, unmarshal,
  read_string, read_bool, read_float, to_pointer, to_any, to_items, to_struct, string_field,
  true_field, pointer_field, any_field, items_field,
}

pub record CdrToken : Type 0 where
  pub uid : String
  pub type : String
  pub contract_id : String

pub record SessionRecord : Type 0 where
  pub country_code : String
  pub party_id : String
  pub id : String
  pub start_date_time : String
  pub end_date_time : Option String
  pub kwh : Float64
  pub cdr_token : CdrToken
  pub auth_method : String
  pub authorization_reference : String
  pub location_id : String
  pub evse_uid : String
  pub connector_id : String
  pub meter_id : String
  pub currency : String
  pub total_cost : Json
  pub status : String
  pub charging_periods : Items
  pub last_updated : String
  pub response_url : String
  pub created_at : String
  pub activated_at : String
  pub callback_sent : Bool

unfoldable pub read_cdr_token : Fields → Option CdrToken
read_cdr_token fs = do
  uid ← read_string "uid" fs
  type ← read_string "type" fs
  contract_id ← read_string "contract_id" fs
  some (record { uid = uid; type = type; contract_id = contract_id })

unfoldable pub read_session : Fields → Option SessionRecord
unfolding read_cdr_token
read_session fs = do
  country_code ← read_string "country_code" fs
  party_id ← read_string "party_id" fs
  id ← read_string "id" fs
  start_date_time ← read_string "start_date_time" fs
  end_date_time ← to_pointer (get "end_date_time" fs)
  kwh ← read_float "kwh" fs
  cdr_token ← to_struct read_cdr_token (get "cdr_token" fs)
  auth_method ← read_string "auth_method" fs
  authorization_reference ← read_string "authorization_reference" fs
  location_id ← read_string "location_id" fs
  evse_uid ← read_string "evse_uid" fs
  connector_id ← read_string "connector_id" fs
  meter_id ← read_string "meter_id" fs
  currency ← read_string "currency" fs
  status ← read_string "status" fs
  charging_periods ← to_items (get "charging_periods" fs)
  last_updated ← read_string "last_updated" fs
  response_url ← read_string "_response_url" fs
  created_at ← read_string "_created_at" fs
  activated_at ← read_string "_activated_at" fs
  callback_sent ← read_bool "_callback_sent" fs
  some (record {
    country_code = country_code;
    party_id = party_id;
    id = id;
    start_date_time = start_date_time;
    end_date_time = end_date_time;
    kwh = kwh;
    cdr_token = cdr_token;
    auth_method = auth_method;
    authorization_reference = authorization_reference;
    location_id = location_id;
    evse_uid = evse_uid;
    connector_id = connector_id;
    meter_id = meter_id;
    currency = currency;
    total_cost = to_any (get "total_cost" fs);
    status = status;
    charging_periods = charging_periods;
    last_updated = last_updated;
    response_url = response_url;
    created_at = created_at;
    activated_at = activated_at;
    callback_sent = callback_sent;
  })

unfoldable pub cdr_token_json : CdrToken → Json
cdr_token_json t = obj (
    field "uid" (str t.uid)
      (field "type" (str t.type) (string_field "contract_id" t.contract_id end)))

-- the members from `meter_id` on
unfoldable pub session_tail : SessionRecord → Fields
session_tail s = string_field "meter_id" s.meter_id (
    field "currency" (str s.currency) (
      any_field "total_cost" s.total_cost (
        field "status" (str s.status) (
          items_field "charging_periods" s.charging_periods (
            field "last_updated" (str s.last_updated) (
              string_field "_response_url" s.response_url (
                string_field "_created_at" s.created_at (
                  string_field "_activated_at" s.activated_at
                    (true_field "_callback_sent" s.callback_sent end)))))))))

unfoldable pub session_fields : SessionRecord → Fields
unfolding cdr_token_json session_tail
session_fields s = field "country_code" (str s.country_code) (
    field "party_id" (str s.party_id) (
      field "id" (str s.id) (
        field "start_date_time" (str s.start_date_time) (
          pointer_field "end_date_time" s.end_date_time (
            field "kwh" (num s.kwh) (
              field "cdr_token" (cdr_token_json s.cdr_token) (
                field "auth_method" (str s.auth_method) (
                  string_field "authorization_reference" s.authorization_reference (
                    field "location_id" (str s.location_id) (
                      field "evse_uid" (str s.evse_uid)
                        (field "connector_id" (str s.connector_id) (session_tail s))))))))))))

unfoldable pub marshal_session : SessionRecord → Bytes
marshal_session s = doc (obj (session_fields s))

unfoldable pub unmarshal_session : Bytes → Option SessionRecord
unmarshal_session b = unmarshal read_session b

-- handlers.ReservationRecord
pub record ReservationRecord : Type 0 where
  pub id : String
  pub location_id : String
  pub evse_uid : String
  pub expiry_date : String
  pub status : String
  pub token_uid : String
  pub last_updated : String
  pub response_url : String
  pub created_at : String
  pub callback_sent : Bool

unfoldable pub marshal_reservation : ReservationRecord → Bytes
marshal_reservation r = doc (
    obj (
      field "id" (str r.id) (
        field "location_id" (str r.location_id) (
          field "evse_uid" (str r.evse_uid) (
            field "expiry_date" (str r.expiry_date) (
              field "status" (str r.status) (
                field "token_uid" (str r.token_uid) (
                  field "last_updated" (str r.last_updated) (
                    string_field "_response_url" r.response_url (
                      string_field "_created_at" r.created_at
                        (true_field "_callback_sent" r.callback_sent end)))))))))))

-- simulation.reservationRecord
pub record TickReservation : Type 0 where
  pub id : String
  pub expiry_date : String
  pub status : String
  pub response_url : String
  pub created_at : String
  pub callback_sent : Bool

unfoldable pub read_tick_reservation : Fields → Option TickReservation
read_tick_reservation fs = do
  id ← read_string "id" fs
  expiry_date ← read_string "expiry_date" fs
  status ← read_string "status" fs
  response_url ← read_string "_response_url" fs
  created_at ← read_string "_created_at" fs
  callback_sent ← read_bool "_callback_sent" fs
  some (record {
    id = id;
    expiry_date = expiry_date;
    status = status;
    response_url = response_url;
    created_at = created_at;
    callback_sent = callback_sent;
  })

unfoldable pub tick_reservation_fields : TickReservation → Fields
tick_reservation_fields r = field "id" (str r.id) (
    field "expiry_date" (str r.expiry_date) (
      field "status" (str r.status) (
        string_field "_response_url" r.response_url (
          string_field "_created_at" r.created_at
            (true_field "_callback_sent" r.callback_sent end)))))

unfoldable pub marshal_tick_reservation : TickReservation → Bytes
unfolding tick_reservation_fields
marshal_tick_reservation r = doc (obj (tick_reservation_fields r))
