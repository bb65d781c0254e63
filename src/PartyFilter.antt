-- ===== src/PartyFilter.antt =====
-- filterRawByParty (handlers/ocpi_headers.go). Its `party` variable is declared outside the loop, so
-- a member that a record lacks keeps the value that an earlier record left there.
pub mod Laws
use ocpi_mock_hub.Prelude.{
  String, Option, none, some, List, [], ◌∷◌, Bool, true, false, ◌&&◌, ◌||◌, ◌==ₛ◌, if◌then◌else◌,
  to_upper,
}
use ocpi_mock_hub.Json.{Json, null, str, obj, Fields, Bytes, doc, get}

pub record PartyVar : Type 0 where
  pub country_code : String
  pub party_id : String

-- What decoding a member does to a string field, and whether it is free of errors.
abbrev pub text_after : Option Json → String → String
text_after (some (str s)) old = s
text_after _ old = old

abbrev pub is_text : Option Json → Bool
is_text none = true
is_text (some null) = true
is_text (some (str s)) = true
is_text (some _) = false

-- json.Unmarshal(b, &party): the variable afterwards, and whether the error is nil. A member of a
-- wrong type is an error, but the other members are still stored.
abbrev unmarshal_party_json : Json → PartyVar → PartyVar × Bool
unmarshal_party_json null party = (party, true)
unmarshal_party_json (obj fs) party = (
  record {
    country_code = text_after (get "country_code" fs) party.country_code;
    party_id = text_after (get "party_id" fs) party.party_id;
  },
  is_text (get "country_code" fs) && is_text (get "party_id" fs),
)
unmarshal_party_json _ party = (party, false)

unfoldable pub unmarshal_party : Bytes → PartyVar → PartyVar × Bool
unmarshal_party (doc j) party = unmarshal_party_json j party
unmarshal_party _ party = (party, false)

abbrev pub is_party : String → String → PartyVar → Bool
is_party cc pid party = (to_upper party.country_code ==ₛ cc) && (to_upper party.party_id ==ₛ pid)

unfoldable pub party_loop : String → String → PartyVar → List Bytes → List Bytes
unfolding unmarshal_party
party_loop cc pid party [] = []
party_loop cc pid party (b ∷ bs) =
    let (next, decoded) = unmarshal_party b party in
    let rest = party_loop cc pid next bs in
    if decoded && is_party cc pid next then b ∷ rest else rest

unfoldable pub filter_raw_by_party : String → String → List Bytes → List Bytes
unfolding party_loop
filter_raw_by_party cc pid items =
    if (cc ==ₛ "") || (pid ==ₛ "")
    then items
    else party_loop cc pid (record { country_code = ""; party_id = "" }) items
