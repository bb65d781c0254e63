-- ===== src/Locations.antt =====
-- The location and tariff handlers that look one object up (handlers/locations.go, handlers/tariffs.go),
-- with the overlay of the EVSEs that sessions occupy.
pub mod Laws
use ocpi_mock_hub.Prelude.{
  String, Option, none, some, List, [], ◌∷◌, map, Bool, true, false, ◌==ₛ◌, ◌||◌, if◌then◌else◌,
  has, ◌>>=◌,
}
use ocpi_mock_hub.Json.{Fields, Bytes, unmarshal, read_string}
use ocpi_mock_hub.Store.{Store}
use ocpi_mock_hub.Seed.{
  Seed, Location, Evse, Connector, Tariff, EvseLookup, no_location, no_evse, found_evse,
  location_by_id, evse_by_uid, find_connector,
}

-- the fields that activeEVSESet reads, evse_uid and status
abbrev pub read_occupied : Fields → Option (String × String)
read_occupied fs = do
  evse_uid ← read_string "evse_uid" fs
  status ← read_string "status" fs
  some (evse_uid, status)

-- the loop of activeEVSESet
abbrev pub add_occupied : Option (String × String) → List String → List String
add_occupied none active = active
add_occupied (some (evse_uid, status)) active =
    if (status ==ₛ "ACTIVE") || (status ==ₛ "PENDING") then evse_uid ∷ active else active

unfoldable pub occupied : List Bytes → List String
occupied [] = []
occupied (b ∷ bs) = add_occupied (unmarshal read_occupied b) (occupied bs)

-- activeEVSESet, with the empty set for nil
unfoldable pub active_evse_set : (store : Store) → store.State → List String
unfolding occupied
active_evse_set store s = elim (store.list_sessions s) [ none ↦ [] | some raw ↦ occupied raw ]

unfoldable pub overlay_evse : List String → Evse → Evse
overlay_evse active e = if has e.uid active then record e { status = "CHARGING" } else e

-- applyEVSEOverlay
unfoldable pub apply_evse_overlay : List String → Location → Location
unfolding overlay_evse
apply_evse_overlay active l = record l { evses = map (overlay_evse active) l.evses }

-- The answer of GetLocation, GetEVSE and GetConnector: the object, or the message of the 404.
pub data Lookup {ℓ} (A : Type ℓ) : Type ℓ where
  found : A → Lookup A
  missing : String → Lookup A

module _ (store : Store) (seed : Seed) where
  unfoldable pub get_location : String → store.State → Lookup Location
  unfolding apply_evse_overlay active_evse_set
  get_location id s = elim (location_by_id seed id) [
    | none ↦ missing "Location not found"
    | some l ↦ found (apply_evse_overlay (active_evse_set store s) l)
  ]

  unfoldable pub get_evse : String → String → store.State → Lookup Evse
  unfolding overlay_evse active_evse_set
  get_evse location_id evse_uid s = elim (evse_by_uid seed location_id evse_uid) [
    | no_location ↦ missing "Location not found"
    | no_evse l ↦ missing "EVSE not found"
    | found_evse l e ↦ found (overlay_evse (active_evse_set store s) e)
  ]

unfoldable pub get_connector : Seed → String → String → String → Lookup Connector
get_connector seed location_id evse_uid connector_id =
    elim (evse_by_uid seed location_id evse_uid) [
      | no_location ↦ missing "Location not found"
      | no_evse l ↦ missing "EVSE not found"
      | found_evse l e ↦ elim (find_connector connector_id e.connectors) [
        | none ↦ missing "Connector not found"
        | some c ↦ found c
      ]
    ]
