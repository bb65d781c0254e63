-- ===== src/Tokens/Sender.antt =====
-- GetTokens and PostTokenAuthorize (handlers/tokens_sender.go), over the store and the seed that the
-- request picks. The draw of rand.Intn(3) is an argument, and so is the body that was read, blank where
-- there is none.
pub mod Allows
use ocpi_mock_hub.Prelude.{
  ℕ, zero, suc, String, ◌≡◌, refl, sym, ap, ◌∙◌, inl, inr, Option, none, some, List, [], ◌∷◌, Bool,
  true, false, ◌&&◌, ◌||◌, not, ◌==ₛ◌, if◌then◌else◌, is_some, Bool-cases, Option-cases, if_cases,
  arith, eq_iff,
}
use ocpi_mock_hub.Json.{
  Json, null, str, obj, arr, Items, nil, cons, Fields, end, field, Bytes, no_bytes, doc, is_nil,
  get, MapResult, map_error, nil_map, map_ok, unmarshal_map, string_or_empty,
}
use ocpi_mock_hub.Response.{
  Outcome, Reply, Response, respond, panicked, Data, value, raw, page, reply_with, ok, ok_with,
  error,
}
use ocpi_mock_hub.Store.{Store, text_or_empty, bytes_or_nil}
use ocpi_mock_hub.Seed.{Seed, Location, Evse, location_by_id}
use ocpi_mock_hub.Paging.{RequestOrigin, Clock}
use ocpi_mock_hub.Sessions.{ListQuery, list_reply}
use ocpi_mock_hub.Tokens.{storage_uid}

-- location_references: a pointer, which is nil where the member is missing or null; a value that is no
-- object makes json.Unmarshal fail, but leaves a pointer to an empty struct
unfoldable pub references_of : Option Json → Option String
references_of none = none
references_of (some null) = none
references_of (some (obj fs)) = some (string_or_empty (get "location_id" fs))
references_of (some _) = some ""

-- the location_id that the references have, backfilled from the flat member
unfoldable pub backfilled : Option String → String → Option String
backfilled none location_id = if location_id ==ₛ "" then none else some location_id
backfilled (some id) location_id = some id

unfoldable pub read_references : MapResult → Option String
unfolding references_of backfilled
read_references (map_ok fs) =
    backfilled (references_of (get "location_references" fs))
      (string_or_empty (get "location_id" fs))
read_references _ = none

unfoldable pub evse_uids : List Evse → Items
evse_uids [] = nil
evse_uids (e ∷ es) = cons (str e.uid) (evse_uids es)

unfoldable pub whitelist_of : MapResult → String
whitelist_of (map_ok fs) = string_or_empty (get "whitelist" fs)
whitelist_of _ = ""

-- statuses[rand.Intn(3)]
unfoldable pub drawn_status : ℕ → String
drawn_status zero = "NOT_ALLOWED"
drawn_status (suc zero) = "EXPIRED"
drawn_status _ = "BLOCKED"

unfoldable pub location_field : Option Location → Fields → Fields
unfolding evse_uids
location_field none fs = fs
location_field (some l) fs = elim l.evses as (λ x. Fields) [
  | [] ↦ fs
  | e ∷ es ↦ field "location" (obj (field "evse_uids" (arr (evse_uids (e ∷ es))) end)) fs
]

-- result["location"], for a location_id that is not empty
unfoldable pub with_location : Seed → Option String → Fields → Fields
unfolding location_field
with_location seed none fs = fs
with_location seed (some id) fs =
    if id ==ₛ "" then fs else location_field (location_by_id seed id) fs

module _ (store : Store) (cc pid uid query : String) where
  unfoldable pub authorization : String → Fields → Json
  authorization allowed rest = obj (
      field "allowed" (str allowed) (
        field "token"
          (obj (
            field "country_code" (str cc) (field "party_id" (str pid) (field "uid" (str uid) end))))
          rest))

  unfoldable pub answer_stored : Seed → Option String → Bytes → Response
  unfolding authorization with_location whitelist_of
  answer_stored seed references b =
      if (whitelist_of (unmarshal_map b) ==ₛ "NEVER") && not (is_some references)
      then error 400 2002 "Token requires LocationReferences for real-time authorization"
      else ok (authorization "ALLOWED" (with_location seed references end))

  unfoldable pub authorize : Seed → ℕ → String → Option String → Bytes → Response
  unfolding answer_stored drawn_status
  authorize seed draw mode references b =
      if mode ==ₛ "reject"
      then ok (authorization "NOT_ALLOWED" end)
      else if mode ==ₛ "auth-fail"
      then ok (authorization (drawn_status draw) end)
      else if is_nil b
      then ok (authorization "NOT_ALLOWED" end)
      else answer_stored seed references b

  unfoldable pub post_token_authorize : Seed → ℕ → Bytes → store.State → Outcome store.State
  unfolding authorize read_references
  post_token_authorize seed draw body s = reply_with s (
      authorize seed draw (text_or_empty (store.get_mode s)) (read_references (unmarshal_map body))
        (bytes_or_nil (store.get_token cc pid (storage_uid store cc pid uid query) s)))

-- GetTokens, with the paging mode of the main store
unfoldable pub get_tokens :
    (store : Store)
    → Clock
    → RequestOrigin
    → String
    → String
    → String
    → ListQuery
    → store.State
    → Outcome store.State
unfolding list_reply
get_tokens store clock r mode hub_country hub_party q s = elim (store.list_tokens s) [
  | none ↦ reply_with s (error 500 3000 "Failed to list tokens")
  | some items ↦ reply_with s (ok_with (list_reply clock r mode hub_country hub_party q items))
]
