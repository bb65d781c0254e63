-- ===== src/Sessions.antt =====
-- The session handlers (handlers/sessions.go), over the store that storeForRequest picks. The URL's
-- parameters are arguments, with the country code and the party id in upper case already.
pub mod Laws
pub mod Atomic
use ocpi_mock_hub.Prelude.{
  String, Option, none, some, List, Bool, true, false, ◌==ₛ◌, ◌&&◌, ◌||◌, if◌then◌else◌, not,
  or_else, to_upper, ◌>>=◌,
}
use ocpi_mock_hub.Json.{
  Json, null, str, arr, obj, Items, nil, cons, Fields, end, field, Bytes, doc, is_nil, get, put,
  without, merge, append, is_empty, MapResult, map_error, nil_map, map_ok, unmarshal_map, unmarshal,
  read_string,
}
use ocpi_mock_hub.Paging.{
  RequestOrigin, Clock, parse_date, filter_raw_by_last_updated, forced_paging, parse_paging,
  page_at,
}
use ocpi_mock_hub.PartyFilter.{filter_raw_by_party}
use ocpi_mock_hub.Response.{
  Outcome, Data, raw, page, Reply, respond, panicked, reply_with, ok, ok_with, error,
}
use ocpi_mock_hub.Store.{Store, text_or_empty}

-- the struct that the handlers read a record's party with
pub record Party : Type 0 where
  pub country_code : String
  pub party_id : String

abbrev pub read_party : Fields → Option Party
read_party fs = do
  country_code ← read_string "country_code" fs
  party_id ← read_string "party_id" fs
  some (record { country_code = country_code; party_id = party_id })

-- a record that does not decode into the struct is not checked
unfoldable pub is_foreign : String → String → Bytes → Bool
is_foreign cc pid b = elim (unmarshal read_party b) [
  | none ↦ false
  | some p ↦ not (to_upper p.country_code ==ₛ cc) || not (to_upper p.party_id ==ₛ pid)
]

abbrev pub list_of : Option Json → Items
list_of (some (arr xs)) = xs
list_of _ = nil

-- target["id"], target["country_code"], target["party_id"]
unfoldable pub with_identity : String → String → String → Fields → Fields
with_identity cc pid id target =
    put "party_id" (str pid) (put "country_code" (str cc) (put "id" (str id) target))

-- the patch without its charging_periods, which are appended
unfoldable pub append_periods : Items → Fields → Fields
append_periods periods target =
    if is_empty periods
    then target
    else put "charging_periods" (arr (append (list_of (get "charging_periods" target)) periods))
        target

unfoldable pub patched : String → String → String → Fields → Fields → Fields
unfolding with_identity append_periods
patched cc pid id patch target = with_identity cc pid id (
    append_periods (list_of (get "charging_periods" patch))
      (merge (without "charging_periods" patch) target))

module _ (store : Store) where
  abbrev server_error : String → store.State → Outcome store.State
  server_error message s = reply_with s (error 500 3000 message)

  abbrev panic : store.State → Outcome store.State
  panic s = record { state = s; reply = panicked; pushes = List.[] }

  -- PutReceiverSession, from the decoded body on: an assignment to a nil map panics
  unfoldable pub put_decoded : String → MapResult → store.State → Outcome store.State
  put_decoded id map_error s = reply_with s (error 400 2003 "Invalid JSON")
  put_decoded id nil_map s = panic s
  put_decoded id (map_ok fs) s =
      reply_with (or_else (store.put_session id (doc (obj (put "id" (str id) fs))) s) s) (ok null)

  unfoldable pub put_receiver_session : String → Option Bytes → store.State → Outcome store.State
  unfolding put_decoded
  put_receiver_session id none s = reply_with s (error 400 2000 "Failed to read body")
  put_receiver_session id (some body) s = put_decoded id (unmarshal_map body) s

  -- the end of PatchReceiverSession
  unfoldable pub store_patched : String → Fields → store.State → Outcome store.State
  store_patched id fs s = elim (store.put_session id (doc (obj fs)) s) [
    | none ↦ server_error "Failed to store session" s
    | some s' ↦ reply_with s' (ok null)
  ]

  -- the stored session is an object, no object at all, or null, on which the assignments panic
  unfoldable pub patch_target :
      String → String → String → Fields → MapResult → store.State → Outcome store.State
  unfolding store_patched
  patch_target cc pid id patch map_error s = store_patched id (patched cc pid id patch end) s
  patch_target cc pid id patch nil_map s = panic s
  patch_target cc pid id patch (map_ok target) s =
      store_patched id (patched cc pid id patch target) s

  unfoldable pub missing_stamp : Fields → Bool
  missing_stamp patch = elim (get "last_updated" patch) [ none ↦ true | some v ↦ false ]

  unfoldable pub patch_fields :
      String → String → String → Fields → Bytes → store.State → Outcome store.State
  unfolding missing_stamp patch_target
  patch_fields cc pid id patch existing s =
      if missing_stamp patch
      then reply_with s (error 400 2003 "PATCH body must include last_updated")
      else patch_target cc pid id patch (unmarshal_map existing) s

  -- a null body is a nil map, which has no last_updated
  unfoldable pub patch_decoded :
      String → String → String → MapResult → Bytes → store.State → Outcome store.State
  unfolding patch_fields
  patch_decoded cc pid id map_error existing s = reply_with s (error 400 2003 "Invalid JSON")
  patch_decoded cc pid id nil_map existing s = patch_fields cc pid id end existing s
  patch_decoded cc pid id (map_ok patch) existing s = patch_fields cc pid id patch existing s

  unfoldable pub patch_body :
      String → String → String → Option Bytes → Bytes → store.State → Outcome store.State
  unfolding patch_decoded
  patch_body cc pid id none existing s = reply_with s (error 400 2000 "Failed to read body")
  patch_body cc pid id (some body) existing s =
      patch_decoded cc pid id (unmarshal_map body) existing s

  -- The start of the handlers that look a record up: it must exist and be the party's.
  unfoldable pub with_record :
      String
      → String
      → String
      → Option Bytes
      → (Bytes → store.State → Outcome store.State)
      → store.State
      → Outcome store.State
  with_record failure cc pid none run s = server_error failure s
  with_record failure cc pid (some existing) run s =
      if is_nil existing
      then reply_with s (error 404 2004 "Session not found")
      else if is_foreign cc pid existing
      then reply_with s (error 404 2004 "Session not found")
      else run existing s

  unfoldable pub patch_receiver_session :
      String → String → String → Option Bytes → store.State → Outcome store.State
  unfolding with_record patch_body
  patch_receiver_session cc pid id body s =
      with_record "Failed to read session" cc pid (store.get_session id s)
        (patch_body cc pid id body) s

  -- getSessionByPartyKey, which GetSessionByID and GetReceiverSession call
  unfoldable pub get_session_by_party_key :
      String → String → String → store.State → Outcome store.State
  unfolding with_record
  get_session_by_party_key cc pid id s =
      with_record "Failed to get session" cc pid (store.get_session id s)
        (λ b s'. reply_with s' (ok_with (raw b))) s

-- What GetSessions reads of the request: the To headers in upper case, and the query.
pub record ListQuery : Type 0 where
  pub to_country : String
  pub to_party : String
  pub date_from : String
  pub date_to : String
  pub offset : String
  pub limit : String

-- the party filter of the list handlers: the hub's own party sees all
unfoldable pub for_party : String → String → ListQuery → List Bytes → List Bytes
for_party hub_country hub_party q items =
    if not (q.to_country ==ₛ "")
      && not (q.to_party ==ₛ "")
      && not ((q.to_country ==ₛ hub_country) && (q.to_party ==ₛ hub_party))
    then filter_raw_by_party q.to_country q.to_party items
    else items

-- the end of GetSessions and GetCDRs, on the listed records; `mode` is the main store's
unfoldable pub list_reply :
    Clock → RequestOrigin → String → String → String → ListQuery → List Bytes → Data
unfolding for_party
list_reply clock r mode hub_country hub_party q items =
    let kept =
      filter_raw_by_last_updated clock (parse_date clock q.date_from) (parse_date clock q.date_to)
        (for_party hub_country hub_party q items) in
    let (items', headers) =
      page_at r (forced_paging mode (parse_paging q.offset q.limit 50)) kept in
    page items' headers

unfoldable pub get_sessions :
    (store : Store)
    → Clock
    → RequestOrigin
    → String
    → String
    → String
    → ListQuery
    → store.State
    → Outcome store.State
unfolding list_reply
get_sessions store clock r mode hub_country hub_party q s = elim (store.list_sessions s) [
  | none ↦ reply_with s (error 500 3000 "Failed to list sessions")
  | some items ↦ reply_with s (ok_with (list_reply clock r mode hub_country hub_party q items))
]
