-- ===== src/Overlay/Instance.antt =====
-- OverlayStore as a handlers.Store (correctness/overlay.go): no method returns an error. A blob that is
-- stored or read is copied, which makes an empty one nil.
use ocpi_mock_hub.Prelude.{
  String, some, List, ◌==ₛ◌, if◌then◌else◌, map, Dict, lookup, without, put, values,
}
use ocpi_mock_hub.Json.{Bytes}
use ocpi_mock_hub.Store.{Store}
use ocpi_mock_hub.MemoryStore.{or_nil}
use ocpi_mock_hub.Correctness.Blobs.{copied}
use ocpi_mock_hub.Overlay.{
  OverlayState, put_overlay_party, delete_overlay_party, get_overlay_party_by_token_b,
  put_overlay_token, get_overlay_token,
}

-- copyBytes of a map's entry
unfoldable pub entry_of : String → Dict Bytes → Bytes
entry_of key m = copied (or_nil (lookup key m))

-- copyMapValues
unfoldable pub copy_map_values : Dict Bytes → List Bytes
copy_map_values m = map copied (values m)

-- encodeOverlayState and decodeOverlayState both replace an empty mode
unfoldable pub mode_or_happy : String → String
mode_or_happy mode = if mode ==ₛ "" then "happy" else mode

unfoldable pub set_overlay_mode : String → OverlayState → OverlayState
unfolding mode_or_happy
set_overlay_mode mode s = record s { mode = mode_or_happy mode }

unfoldable pub put_overlay_session : String → Bytes → OverlayState → OverlayState
put_overlay_session id session s = record s { sessions = put id (copied session) s.sessions }

unfoldable pub put_overlay_cdr : String → Bytes → OverlayState → OverlayState
put_overlay_cdr id cdr s = record s { cdrs = put id (copied cdr) s.cdrs }

unfoldable pub put_overlay_reservation : String → Bytes → OverlayState → OverlayState
put_overlay_reservation id reservation s = record s {
  reservations = put id (copied reservation) s.reservations;
}

unfoldable pub put_overlay_charging_profile : String → Bytes → OverlayState → OverlayState
put_overlay_charging_profile id profile s = record s {
  charging_profiles = put id (copied profile) s.charging_profiles;
}

abbrev pub overlay_store : Store
overlay_store = record {
  State = OverlayState;
  get_token_b = λ s. some s.token_b;
  set_token_b = λ token s. some (record s { token_b = token });
  get_emsp_callback_url = λ s. some s.callback_url;
  set_emsp_callback_url = λ url s. some (record s { callback_url = url });
  get_emsp_credentials = λ s. some (copied s.credentials);
  set_emsp_credentials = λ creds s. some (record s { credentials = copied creds });
  get_emsp_own_token = λ s. some s.emsp_token;
  set_emsp_own_token = λ token s. some (record s { emsp_token = token });
  get_emsp_versions_url = λ s. some s.versions_url;
  set_emsp_versions_url = λ url s. some (record s { versions_url = url });
  put_party = λ key payload s. some (put_overlay_party key payload s);
  get_party = λ key s. some (entry_of key s.parties);
  get_party_by_token_b = λ token s. some (get_overlay_party_by_token_b token s);
  delete_party = λ key s. some (delete_overlay_party key s);
  list_parties = λ s. some (copy_map_values s.parties);
  put_token = λ cc pid uid token s. some (put_overlay_token cc pid uid token s);
  get_token = λ cc pid uid s. some (get_overlay_token cc pid uid s);
  list_tokens = λ s. some (copy_map_values s.tokens);
  put_session = λ id session s. some (put_overlay_session id session s);
  get_session = λ id s. some (entry_of id s.sessions);
  list_sessions = λ s. some (copy_map_values s.sessions);
  delete_session = λ id s. some (record s { sessions = without id s.sessions });
  put_cdr = λ id cdr s. some (put_overlay_cdr id cdr s);
  get_cdr = λ id s. some (entry_of id s.cdrs);
  list_cdrs = λ s. some (copy_map_values s.cdrs);
  put_reservation = λ id reservation s. some (put_overlay_reservation id reservation s);
  get_reservation = λ id s. some (entry_of id s.reservations);
  list_reservations = λ s. some (copy_map_values s.reservations);
  delete_reservation = λ id s. some (record s { reservations = without id s.reservations });
  put_charging_profile = λ id profile s. some (put_overlay_charging_profile id profile s);
  get_charging_profile = λ id s. some (entry_of id s.charging_profiles);
  delete_charging_profile =
      λ id s. some (record s { charging_profiles = without id s.charging_profiles });
  get_mode = λ s. some s.mode;
  set_mode = λ mode s. some (set_overlay_mode mode s);
}
