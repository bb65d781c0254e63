-- ===== src/Overlay.antt =====
-- OverlayStore (correctness/overlay.go), on the decoded overlayState: each method decodes the blob,
-- changes it and encodes it in one UpdateBlob, which is one step here. Blobs that fail to load or to
-- decode are left out. copyBytes makes an empty payload nil when it is stored, so that the copy of
-- what is read back changes nothing.
pub mod Laws
pub mod Instance
pub mod Scoped
use ocpi_mock_hub.Prelude.{
  String, Option, none, some, List, [], Bool, ◌==ₛ◌, if◌then◌else◌, Dict, lookup, without, put,
  to_upper,
}
use Prim.Native.String.{◌++◌}
use ocpi_mock_hub.Json.{Bytes, no_bytes}
use ocpi_mock_hub.MemoryStore.{token_b_of, or_nil}
use ocpi_mock_hub.Correctness.Blobs.{copied}

pub record OverlayState : Type 0 where
  pub token_b : String
  pub callback_url : String
  pub credentials : Bytes
  pub emsp_token : String
  pub versions_url : String
  pub mode : String
  pub parties : Dict Bytes
  pub token_b_index : Dict String
  pub tokens : Dict Bytes
  pub sessions : Dict Bytes
  pub cdrs : Dict Bytes
  pub reservations : Dict Bytes
  pub charging_profiles : Dict Bytes

unfoldable pub default_overlay_state : OverlayState
default_overlay_state = record {
  token_b = "";
  callback_url = "";
  credentials = no_bytes;
  emsp_token = "";
  versions_url = "";
  mode = "happy";
  parties = [];
  token_b_index = [];
  tokens = [];
  sessions = [];
  cdrs = [];
  reservations = [];
  charging_profiles = [];
}

-- the `if prev, ok := state.Parties[key]` of PutParty and DeleteParty
unfoldable pub forget_token : Option Bytes → Dict String → Dict String
forget_token none index = index
forget_token (some prev) index =
    let old = token_b_of prev in if old ==ₛ "" then index else without old index

unfoldable pub index_token : String → String → Dict String → Dict String
index_token token key index = if token ==ₛ "" then index else put token key index

unfoldable pub put_overlay_party : String → Bytes → OverlayState → OverlayState
put_overlay_party key payload s = record s {
  parties = put key (copied payload) s.parties;
  token_b_index =
      index_token (token_b_of payload) key (forget_token (lookup key s.parties) s.token_b_index);
}

unfoldable pub delete_overlay_party : String → OverlayState → OverlayState
delete_overlay_party key s = record s {
  parties = without key s.parties;
  token_b_index = forget_token (lookup key s.parties) s.token_b_index;
}

unfoldable pub get_overlay_party_by_token_b : String → OverlayState → Bytes
get_overlay_party_by_token_b token s = elim (lookup token s.token_b_index) [
  | none ↦ no_bytes
  | some key ↦ or_nil (lookup key s.parties)
]

-- the overlay's tokenKey, which unlike the in-memory store's ignores the case of the party
unfoldable pub overlay_token_key : String → String → String → String
overlay_token_key cc pid uid = to_upper cc ++ "/" ++ to_upper pid ++ "/" ++ uid

unfoldable pub put_overlay_token : String → String → String → Bytes → OverlayState → OverlayState
put_overlay_token cc pid uid token s = record s {
  tokens = put (overlay_token_key cc pid uid) (copied token) s.tokens;
}

unfoldable pub get_overlay_token : String → String → String → OverlayState → Bytes
get_overlay_token cc pid uid s = or_nil (lookup (overlay_token_key cc pid uid) s.tokens)
