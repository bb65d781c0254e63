-- ===== src/Tokens.antt =====
-- The token receiver (handlers/tokens.go) and getTokenByCompositeKey (handlers/tokens_sender.go), over
-- the store that storeForRequest picks. The URL's parameters and ?type= are arguments.
pub mod Laws
pub mod Sender
use ocpi_mock_hub.Prelude.{
  String, Option, none, some, List, [], Bool, true, false, ◌==ₛ◌, ◌||◌, if◌then◌else◌, to_upper,
  trim_space,
}
use Prim.Native.String.{◌++◌}
use ocpi_mock_hub.Json.{
  null, str, obj, Fields, end, Bytes, doc, is_nil, is_blank, get, put, merge, MapResult, map_error,
  nil_map, map_ok, unmarshal_map,
}
use ocpi_mock_hub.Response.{Outcome, raw, panicked, reply_with, ok, ok_with, error}
use ocpi_mock_hub.Store.{Store}

-- tokenStorageUID
unfoldable pub token_storage_uid : String → String → String
token_storage_uid uid token_type =
    let normalized = to_upper (trim_space token_type) in
    if (normalized ==ₛ "") || (normalized ==ₛ "RFID") then uid else uid ++ "|" ++ normalized

-- tokenTypeFromRequest
unfoldable pub token_type_of : String → String
token_type_of q = let t = to_upper (trim_space q) in if t ==ₛ "" then "RFID" else t

-- country_code, party_id, uid and type of the URL, which are authoritative
unfoldable pub with_token_identity : String → String → String → String → Fields → Fields
with_token_identity cc pid uid token_type fs =
    put "type" (str token_type)
      (put "uid" (str uid) (put "party_id" (str pid) (put "country_code" (str cc) fs)))

module _ (store : Store) (cc pid uid query : String) where
  abbrev pub storage_uid : String
  storage_uid = token_storage_uid uid (token_type_of query)

  unfoldable pub store_token : Bytes → store.State → Outcome store.State
  store_token b s = elim (store.put_token cc pid storage_uid b s) [
    | none ↦ reply_with s (error 500 3000 "Failed to store token")
    | some s' ↦ reply_with s' (ok null)
  ]

  -- a body that is no object is stored as it is; an assignment to a nil map panics
  unfoldable pub put_parsed : Bytes → MapResult → store.State → Outcome store.State
  unfolding store_token with_token_identity
  put_parsed body map_error s = store_token body s
  put_parsed body nil_map s = record { state = s; reply = panicked; pushes = [] }
  put_parsed body (map_ok fs) s =
      store_token (doc (obj (with_token_identity cc pid uid (token_type_of query) fs))) s

  -- PutToken
  unfoldable pub put_receiver_token : Option Bytes → store.State → Outcome store.State
  unfolding put_parsed
  put_receiver_token none s = reply_with s (error 400 2000 "Failed to read body")
  put_receiver_token (some body) s =
      if is_blank body then store_token body s else put_parsed body (unmarshal_map body) s

  unfoldable pub merge_token : Fields → MapResult → store.State → Outcome store.State
  unfolding store_token with_token_identity
  merge_token patch map_error s =
      store_token
        (doc (obj (with_token_identity cc pid uid (token_type_of query) (merge patch end)))) s
  merge_token patch nil_map s = record { state = s; reply = panicked; pushes = [] }
  merge_token patch (map_ok target) s =
      store_token
        (doc (obj (with_token_identity cc pid uid (token_type_of query) (merge patch target)))) s

  unfoldable pub patch_token_fields : Fields → Bytes → store.State → Outcome store.State
  unfolding merge_token
  patch_token_fields patch existing s = elim (get "last_updated" patch) [
    | none ↦ reply_with s (error 400 2003 "PATCH body must include last_updated")
    | some v ↦ merge_token patch (unmarshal_map existing) s
  ]

  unfoldable pub patch_parsed : MapResult → Bytes → store.State → Outcome store.State
  unfolding patch_token_fields
  patch_parsed map_error existing s = reply_with s (error 400 2003 "Invalid JSON")
  patch_parsed nil_map existing s = patch_token_fields end existing s
  patch_parsed (map_ok patch) existing s = patch_token_fields patch existing s

  unfoldable pub patch_token_body : Option Bytes → Bytes → store.State → Outcome store.State
  unfolding patch_parsed
  patch_token_body none existing s = reply_with s (error 400 2000 "Failed to read body")
  patch_token_body (some body) existing s = patch_parsed (unmarshal_map body) existing s

  -- PatchToken
  unfoldable pub patch_receiver_token : Option Bytes → store.State → Outcome store.State
  unfolding patch_token_body
  patch_receiver_token body s = elim (store.get_token cc pid storage_uid s) [
    | none ↦ reply_with s (error 500 3000 "Failed to read token")
    | some existing ↦
        if is_nil existing
        then reply_with s (error 404 2004 "Token not found")
        else patch_token_body body existing s
  ]

  -- getTokenByCompositeKey, which GetReceiverToken and GetTokenByID call
  unfoldable pub get_token_by_composite_key : store.State → Outcome store.State
  get_token_by_composite_key s = elim (store.get_token cc pid storage_uid s) [
    | none ↦ reply_with s (error 500 3000 "Failed to get token")
    | some b ↦
        if is_nil b
        then reply_with s (error 404 2004 "Token not found")
        else reply_with s (ok_with (raw b))
  ]
