-- ===== src/PartyFilter/Laws.antt =====
-- When filterRawByParty is the filter that its comment names, and when it is not.
use ocpi_mock_hub.Prelude.{
  String, ◌≡◌, ◌≢◌, refl, none, some, List, [], ◌∷◌, Bool, true, arith, eq_iff, filter,
}
use ocpi_mock_hub.Json.{str, obj, Fields, Bytes, doc, get}
use ocpi_mock_hub.PartyFilter.{PartyVar, unmarshal_party, party_loop, filter_raw_by_party, is_party}

-- A record that has both members as strings, as every record that the hub itself writes has.
abbrev pub IsTagged : Bytes → Type 0
IsTagged b =
    (fs : Fields) × (cc : String) × (pid : String) × (b ≡ doc (obj fs))
    × (get "country_code" fs ≡ some (str cc))
    × (get "party_id" fs ≡ some (str pid))

abbrev pub AllTagged : List Bytes → Type 0
AllTagged [] = Unit
AllTagged (b ∷ bs) = IsTagged b × AllTagged bs

-- Whether the record's own members name the party.
unfoldable pub belongs : String → String → Bytes → Bool
unfolding unmarshal_party
belongs cc pid b =
    is_party cc pid (unmarshal_party b (record { country_code = ""; party_id = "" })).0

party_loop-filter :
    (cc pid : String) (party : PartyVar) (items : List Bytes)
    → AllTagged items
    → party_loop cc pid party items ≡ filter (belongs cc pid) items
unfolding party_loop belongs
party_loop-filter cc pid party [] h = refl
party_loop-filter cc pid party (b ∷ bs) ((fs, c, p, e, ec, ep), h) =
    rw (e, ec, ep, party_loop-filter cc pid (record { country_code = c; party_id = p }) bs h)

-- For a non-empty country code and party id, and records that all carry their party as strings,
-- exactly the records whose members in upper case are the given country code and party id are kept,
-- in order.
filter_raw_by_party_lem :
    (cc pid : String) (items : List Bytes)
    → cc ≢ ""
    → pid ≢ ""
    → AllTagged items
    → filter_raw_by_party cc pid items ≡ filter (belongs cc pid) items
unfolding filter_raw_by_party
filter_raw_by_party_lem cc pid items hc hp h = ground (
  arith,
  eq_iff cc "",
  eq_iff pid "",
  party_loop-filter cc pid (record { country_code = ""; party_id = "" }) items h,
)

-- For a non-empty country code and party id, a record with neither member that follows a record of
-- the party is kept too, although it names no party: it is read with the members of the record
-- before it.
pub filter_raw_by_party-leaks :
    (cc pid : String) (b : Bytes) (fs : Fields)
    → cc ≢ ""
    → pid ≢ ""
    → IsTagged b
    → belongs cc pid b ≡ true
    → get "country_code" fs ≡ none
    → get "party_id" fs ≡ none
    → filter_raw_by_party cc pid (b ∷ doc (obj fs) ∷ []) ≡ b ∷ doc (obj fs) ∷ []
unfolding filter_raw_by_party belongs
filter_raw_by_party-leaks cc pid b fs hc hp (gs, c, p, e, ec, ep) own nc np =
    rw e (ground (arith, e, own, eq_iff cc "", eq_iff pid "", ec, ep, nc, np))
