-- ===== src/Seed.antt =====
-- SeedData and its lookups (fakegen/types.go, fakegen/seed.go). Of a location, an EVSE, a connector and
-- a tariff the members that the hub's code reads are named; `details` stands for the others.
use ocpi_mock_hub.Prelude.{
  String, Option, none, some, List, [], ◌∷◌, ◌&&◌, ◌==ₛ◌, if◌then◌else◌, filter,
}
use ocpi_mock_hub.Json.{Json, Fields}

pub record Connector : Type 0 where
  pub id : String
  pub details : Fields

pub record Evse : Type 0 where
  pub uid : String
  pub status : String
  pub capabilities : List String
  pub connectors : List Connector
  pub last_updated : String
  pub details : Fields

pub record Location : Type 0 where
  pub country_code : String
  pub party_id : String
  pub id : String
  pub evses : List Evse
  pub last_updated : String
  pub details : Fields

pub record Tariff : Type 0 where
  pub country_code : String
  pub party_id : String
  pub id : String
  pub currency : String
  pub last_updated : String
  pub details : Fields

pub record Seed : Type 0 where
  pub locations : List Location
  pub tariffs : List Tariff
  pub hub_client_info : List Json

unfoldable pub find_location : String → List Location → Option Location
find_location id [] = none
find_location id (l ∷ ls) = if l.id ==ₛ id then some l else find_location id ls

unfoldable pub location_by_id : Seed → String → Option Location
unfolding find_location
location_by_id s id = find_location id s.locations

unfoldable pub locations_by_party : Seed → String → String → List Location
locations_by_party s cc pid =
    filter (λ l. (l.country_code ==ₛ cc) && (l.party_id ==ₛ pid)) s.locations

unfoldable pub tariffs_by_party : Seed → String → String → List Tariff
tariffs_by_party s cc pid = filter (λ t. (t.country_code ==ₛ cc) && (t.party_id ==ₛ pid)) s.tariffs

unfoldable pub find_evse : String → List Evse → Option Evse
find_evse uid [] = none
find_evse uid (e ∷ es) = if e.uid ==ₛ uid then some e else find_evse uid es

unfoldable pub find_connector : String → List Connector → Option Connector
find_connector id [] = none
find_connector id (c ∷ cs) = if c.id ==ₛ id then some c else find_connector id cs

-- EVSEByUID: no location, a location without the EVSE, or both
pub data EvseLookup : Type 0 where
  no_location : EvseLookup
  no_evse : Location → EvseLookup
  found_evse : Location → Evse → EvseLookup

unfoldable pub evse_in : String → Option Location → EvseLookup
evse_in uid none = no_location
evse_in uid (some l) = elim (find_evse uid l.evses) [ none ↦ no_evse l | some e ↦ found_evse l e ]

unfoldable pub evse_by_uid : Seed → String → String → EvseLookup
unfolding evse_in find_evse
evse_by_uid s location_id uid = evse_in uid (location_by_id s location_id)

unfoldable pub find_tariff : String → String → String → List Tariff → Option Tariff
find_tariff cc pid id [] = none
find_tariff cc pid id (t ∷ ts) =
    if (t.country_code ==ₛ cc) && (t.party_id ==ₛ pid) && (t.id ==ₛ id)
    then some t
    else find_tariff cc pid id ts

unfoldable pub tariff_by_id : Seed → String → String → String → Option Tariff
unfolding find_tariff
tariff_by_id s cc pid id = find_tariff cc pid id s.tariffs
