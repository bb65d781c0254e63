-- ===== src/Cdrs.antt =====
-- The CDR handlers (handlers/cdrs.go), over the store that storeForRequest picks.
pub mod Laws
use ocpi_mock_hub.Prelude.{
  String, Option, none, some, List, [], Bool, ◌==ₛ◌, if◌then◌else◌, or_else,
}
use Prim.Native.String.{◌++◌}
use ocpi_mock_hub.Json.{
  null, Fields, end, Bytes, is_nil, get, MapResult, map_error, nil_map, map_ok, unmarshal_map,
  string_or_empty,
}
use ocpi_mock_hub.Paging.{RequestOrigin, Clock}
use ocpi_mock_hub.Response.{
  Outcome, Response, value, raw, respond, reply_with, ok_with, error, resolve_scheme, resolve_host,
}
use ocpi_mock_hub.Store.{Store}
use ocpi_mock_hub.Sessions.{is_foreign, ListQuery, list_reply}

-- the 201 of PostReceiverCDR, with its Location header
unfoldable pub created : RequestOrigin → String → Response
created r id = record {
  http_status = 201;
  status_code = 1000;
  status_message = "";
  payload = value null;
  location = resolve_scheme r ++ "://" ++ resolve_host r ++ "/ocpi/2.2.1/receiver/cdrs/" ++ id;
}

module _ (store : Store) where
  unfoldable pub post_fields : RequestOrigin → Bytes → Fields → store.State → Outcome store.State
  unfolding created
  post_fields r body fs s =
      let id = string_or_empty (get "id" fs) in
      if id ==ₛ ""
      then reply_with s (error 400 2003 "Missing id field")
      else reply_with (or_else (store.put_cdr id body s) s) (created r id)

  -- PostReceiverCDR: a null body is a nil map, which has no id
  unfoldable pub post_parsed : RequestOrigin → Bytes → MapResult → store.State → Outcome store.State
  unfolding post_fields
  post_parsed r body map_error s = reply_with s (error 400 2003 "Invalid JSON")
  post_parsed r body nil_map s = post_fields r body end s
  post_parsed r body (map_ok fs) s = post_fields r body fs s

  unfoldable pub post_receiver_cdr :
      RequestOrigin → Option Bytes → store.State → Outcome store.State
  unfolding post_parsed
  post_receiver_cdr r none s = reply_with s (error 400 2000 "Failed to read body")
  post_receiver_cdr r (some body) s = post_parsed r body (unmarshal_map body) s

  unfoldable pub get_receiver_cdr : String → store.State → Outcome store.State
  get_receiver_cdr id s = elim (store.get_cdr id s) [
    | none ↦ reply_with s (error 500 3000 "Failed to get CDR")
    | some b ↦
        if is_nil b
        then reply_with s (error 404 2004 "CDR not found")
        else reply_with s (ok_with (raw b))
  ]

  unfoldable pub get_cdr_by_id : String → String → String → store.State → Outcome store.State
  get_cdr_by_id cc pid id s = elim (store.get_cdr id s) [
    | none ↦ reply_with s (error 500 3000 "Failed to get CDR")
    | some b ↦
        if is_nil b
        then reply_with s (error 404 2004 "CDR not found")
        else if is_foreign cc pid b
        then reply_with s (error 404 2004 "CDR not found")
        else reply_with s (ok_with (raw b))
  ]

  unfoldable pub get_cdrs :
      Clock
      → RequestOrigin
      → String
      → String
      → String
      → ListQuery
      → store.State
      → Outcome store.State
  unfolding list_reply
  get_cdrs clock r mode hub_country hub_party q s = elim (store.list_cdrs s) [
    | none ↦ reply_with s (error 500 3000 "Failed to list CDRs")
    | some items ↦ reply_with s (ok_with (list_reply clock r mode hub_country hub_party q items))
  ]
