-- ===== src/Examples/Worlds.antt =====
-- The data of the examples.
use ocpi_mock_hub.Prelude.{
  ◌+◌, ◌-◌, String, none, some, [], ◌∷◌, false, ◌==ₛ◌, ◌==◌, if◌then◌else◌, ltb,
}
use ocpi_mock_hub.Json.{null, nil, end, Float64}
use ocpi_mock_hub.Paging.{Clock, RequestOrigin}
use ocpi_mock_hub.Auth.{Base64}
use ocpi_mock_hub.Seed.{Seed, Location}
use ocpi_mock_hub.Records.{SessionRecord, ReservationRecord}
use ocpi_mock_hub.MemoryStore.{MemoryStore, new_memory_store}
use ocpi_mock_hub.Records.{marshal_session, marshal_reservation}
use ocpi_mock_hub.Lifecycle.Numbers.{Numbers, Draws}
use ocpi_mock_hub.Lifecycle.Advance.{Simulator, World}

abbrev pub base64 : Base64
base64 = record { decode = λ s. if s ==ₛ "dG9r" then some "tok" else none; encode = λ b. "e30=" }

abbrev pub origin : RequestOrigin
origin = record {
  is_tls = false;
  forwarded_proto = "https";
  rally_forwarded_host = "";
  forwarded_host = "";
  host = "hub.test";
}

-- t0, t1 and t2 are 0, 2 ms and 1.002 s
abbrev clock : Clock
clock = record {
  parse = λ s.
      if s ==ₛ "t0"
      then some 0
      else if s ==ₛ "t1"
      then some 2000000
      else if s ==ₛ "t2"
      then some 1002000001
      else none;
  format = λ n. if n == 0 then "t0" else if n == 2000000 then "t1" else "t2";
}

abbrev numbers : Numbers
numbers = record {
  add = λ x y. x + y;
  mul = λ x y. x + y;
  div = λ x y. x - y;
  lt = ltb;
  of_int = λ n. n;
  truncate = λ x. x;
  seconds = λ a b. a - b;
  hours = λ a b. a - b;
}

abbrev pub world : World
world = record { clock = clock; numbers = numbers; now = 2000000 }

abbrev pub later : World
later = record { clock = clock; numbers = numbers; now = 1002000001 }

abbrev pub format_kwh : Float64 → String
format_kwh x = "20.00"

abbrev pub draws : Draws
draws = record { first = 1; second = 2; uuid = "0a1b2c3d" }

abbrev pub location : Location
location = record {
  country_code = "DE";
  party_id = "AAA";
  id = "LOC1";
  evses =
      record {
        uid = "EVSE1";
        status = "AVAILABLE";
        capabilities = [];
        connectors = record { id = "1"; details = end } ∷ [];
        last_updated = "t0";
        details = end;
      }
      ∷ [];
  last_updated = "t0";
  details = end;
}

abbrev pub seed : Seed
seed = record { locations = location ∷ []; tariffs = []; hub_client_info = [] }

abbrev pub simulator : Simulator
simulator = record {
  seed = some seed;
  emsp_callback_url = "https://emsp.test/ocpi/versions";
  command_delay_ms = 1;
  session_duration_s = 1;
  auth_token = "";
}

abbrev pub session : String → String → SessionRecord
session id status = record {
  country_code = "DE";
  party_id = "AAA";
  id = id;
  start_date_time = "t0";
  end_date_time = none;
  kwh = 0;
  cdr_token = record { uid = "U1"; type = "RFID"; contract_id = "" };
  auth_method = "COMMAND";
  authorization_reference = "";
  location_id = "LOC1";
  evse_uid = "EVSE1";
  connector_id = "1";
  meter_id = "METER-EVSE1";
  currency = "EUR";
  total_cost = null;
  status = status;
  charging_periods = nil;
  last_updated = "t0";
  response_url = "https://emsp.test/callback";
  created_at = "t0";
  activated_at = "";
  callback_sent = false;
}

-- a store with a PENDING and a COMPLETED session
abbrev pub pending : SessionRecord
pending = session "S1" "PENDING"

abbrev pub ended : SessionRecord
ended = session "S2" "COMPLETED"

abbrev pub two_sessions : MemoryStore
two_sessions = record new_memory_store {
  sessions = ("S1", marshal_session pending) ∷ ("S2", marshal_session ended) ∷ [];
}

abbrev pub reservation : ReservationRecord
reservation = record {
  id = "R1";
  location_id = "LOC1";
  evse_uid = "EVSE1";
  expiry_date = "t2";
  status = "RESERVED";
  token_uid = "U1";
  last_updated = "t0";
  response_url = "https://emsp.test/callback";
  created_at = "t0";
  callback_sent = false;
}

abbrev pub one_reservation : MemoryStore
one_reservation = record new_memory_store {
  reservations = ("R1", marshal_reservation reservation) ∷ [];
}
