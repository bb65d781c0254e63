-- ===== src/MemoryStore.antt =====
-- MemoryStore (hub/store_memory.go): the maps of the in-memory store. Its methods return a nil error
-- on every path, so here a write returns the new state and a read its value. Each method takes the
-- store's one lock for its whole body, so it is one step. GetBlob and UpdateBlob are left out.
pub mod Parties
pub mod Instance
pub mod Lookup
use ocpi_mock_hub.Prelude.{
  String, Option, none, some, List, [], ◌∷◌, Bool, ◌==ₛ◌, ◌&&◌, not, if◌then◌else◌, Dict, lookup,
  without, put, values, has, erase, add, ◌>>=◌,
}
use Prim.Native.String.{◌++◌}
use ocpi_mock_hub.Json.{Bytes, no_bytes, unmarshal, read_string, Fields}

pub record MemoryStore : Type 0 where
  pub blobs : Dict Bytes
  pub token_b : String
  pub emsp_callback_url : String
  pub emsp_creds : Bytes
  pub emsp_own_token : String
  pub emsp_versions_url : String
  pub parties : Dict Bytes
  pub token_b_index : Dict (List String)
  pub tokens : Dict Bytes
  pub sessions : Dict Bytes
  pub cdrs : Dict Bytes
  pub reservations : Dict Bytes
  pub charging_profiles : Dict Bytes
  pub mode : String

unfoldable pub new_memory_store : MemoryStore
new_memory_store = record {
  blobs = [];
  token_b = "";
  emsp_callback_url = "";
  emsp_creds = no_bytes;
  emsp_own_token = "";
  emsp_versions_url = "";
  parties = [];
  token_b_index = [];
  tokens = [];
  sessions = [];
  cdrs = [];
  reservations = [];
  charging_profiles = [];
  mode = "happy";
}

-- m[key] of a map[string][]byte: nil where the key is missing
abbrev pub or_nil : Option Bytes → Bytes
or_nil none = no_bytes
or_nil (some b) = b

-- json.Unmarshal(b, &prev) == nil && prev.TokenB != "": the token, or "" where the test fails
abbrev pub decoded_token : Option String → String
decoded_token none = ""
decoded_token (some t) = t

unfoldable pub token_b_of : Bytes → String
token_b_of b = decoded_token (unmarshal (read_string "token_b") b)

abbrev no_set : Option (List String) → List String
no_set none = []
no_set (some s) = s

abbrev is_empty_set : List String → Bool
is_empty_set [] = Bool.true
is_empty_set _ = Bool.false

-- unbindTokenBLocked
unbind_set : String → String → Option (List String) → Dict (List String) → Dict (List String)
unbind_set token_b party_key none index = index
unbind_set token_b party_key (some set) index =
    let left = erase party_key set in
    if is_empty_set left then without token_b index else put token_b left index

unfoldable pub unbind_token_b : String → String → Dict (List String) → Dict (List String)
unfolding unbind_set
unbind_token_b token_b party_key index = unbind_set token_b party_key (lookup token_b index) index

-- the `if old, ok := m.parties[key]` of PutParty and DeleteParty
unfoldable pub unbind_old : String → Option Bytes → Dict (List String) → Dict (List String)
unbind_old key none index = index
unbind_old key (some old) index =
    let token = token_b_of old in if token ==ₛ "" then index else unbind_token_b token key index

unfoldable pub bind_token_b : String → String → Dict (List String) → Dict (List String)
unfolding add
bind_token_b token key index =
    if token ==ₛ "" then index else put token (add key (no_set (lookup token index))) index

unfoldable pub put_party : String → Bytes → MemoryStore → MemoryStore
put_party key state m = record m {
  parties = put key state m.parties;
  token_b_index =
      bind_token_b (token_b_of state) key (unbind_old key (lookup key m.parties) m.token_b_index);
}

unfoldable pub delete_party : String → MemoryStore → MemoryStore
delete_party key m = record m {
  parties = without key m.parties;
  token_b_index = unbind_old key (lookup key m.parties) m.token_b_index;
}

unfoldable pub get_party : String → MemoryStore → Bytes
get_party key m = or_nil (lookup key m.parties)

-- the loop of GetPartyByTokenB: the first key that has a party
unfoldable pub first_party : List String → Dict Bytes → Bytes
first_party [] parties = no_bytes
first_party (key ∷ keys) parties =
    let rest = first_party keys parties in
    elim (lookup key parties) [ none ↦ rest | some party ↦ party ]

unfoldable pub get_party_by_token_b : String → MemoryStore → Bytes
unfolding first_party
get_party_by_token_b token m = elim (lookup token m.token_b_index) [
  | none ↦ no_bytes
  | some set ↦ first_party set m.parties
]

unfoldable pub list_parties : MemoryStore → List Bytes
list_parties m = values m.parties

unfoldable pub token_key : String → String → String → String
token_key cc pid uid = cc ++ "/" ++ pid ++ "/" ++ uid

unfoldable pub put_token : String → String → String → Bytes → MemoryStore → MemoryStore
put_token cc pid uid token m = record m { tokens = put (token_key cc pid uid) token m.tokens }

unfoldable pub get_token : String → String → String → MemoryStore → Bytes
get_token cc pid uid m = or_nil (lookup (token_key cc pid uid) m.tokens)

unfoldable pub list_tokens : MemoryStore → List Bytes
list_tokens m = values m.tokens

unfoldable pub put_session : String → Bytes → MemoryStore → MemoryStore
put_session id session m = record m { sessions = put id session m.sessions }

unfoldable pub get_session : String → MemoryStore → Bytes
get_session id m = or_nil (lookup id m.sessions)

unfoldable pub list_sessions : MemoryStore → List Bytes
list_sessions m = values m.sessions

unfoldable pub delete_session : String → MemoryStore → MemoryStore
delete_session id m = record m { sessions = without id m.sessions }

unfoldable pub put_cdr : String → Bytes → MemoryStore → MemoryStore
put_cdr id cdr m = record m { cdrs = put id cdr m.cdrs }

unfoldable pub get_cdr : String → MemoryStore → Bytes
get_cdr id m = or_nil (lookup id m.cdrs)

unfoldable pub list_cdrs : MemoryStore → List Bytes
list_cdrs m = values m.cdrs

unfoldable pub put_reservation : String → Bytes → MemoryStore → MemoryStore
put_reservation id reservation m = record m { reservations = put id reservation m.reservations }

unfoldable pub get_reservation : String → MemoryStore → Bytes
get_reservation id m = or_nil (lookup id m.reservations)

unfoldable pub list_reservations : MemoryStore → List Bytes
list_reservations m = values m.reservations

unfoldable pub delete_reservation : String → MemoryStore → MemoryStore
delete_reservation id m = record m { reservations = without id m.reservations }

unfoldable pub put_charging_profile : String → Bytes → MemoryStore → MemoryStore
put_charging_profile id profile m = record m {
  charging_profiles = put id profile m.charging_profiles;
}

unfoldable pub get_charging_profile : String → MemoryStore → Bytes
get_charging_profile id m = or_nil (lookup id m.charging_profiles)

unfoldable pub delete_charging_profile : String → MemoryStore → MemoryStore
delete_charging_profile id m = record m { charging_profiles = without id m.charging_profiles }

unfoldable pub get_mode : MemoryStore → String
get_mode m = if m.mode ==ₛ "" then "happy" else m.mode
