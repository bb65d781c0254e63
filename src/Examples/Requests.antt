-- ===== src/Examples/Requests.antt =====
-- The theorems on the request log and on the authorization of tokens at concrete inputs.
use ocpi_mock_hub.Prelude.{String, ◌≡◌, List, [], ◌∷◌, true, to_upper, trim_space, lookup, put}
use ocpi_mock_hub.Json.{str, end, field, Bytes, doc, obj, get}
use ocpi_mock_hub.MemoryStore.{
  MemoryStore, new_memory_store, put_token, get_token, get_mode, token_key,
}
use ocpi_mock_hub.MemoryStore.Instance.{memory_store}
use ocpi_mock_hub.Tokens.{token_storage_uid, token_type_of}
use ocpi_mock_hub.Tokens.Sender.{post_token_authorize, whitelist_of}
use ocpi_mock_hub.Tokens.Sender.Allows.{allows_reply, refers, post_token_authorize-allows}
use ocpi_mock_hub.RequestLog.{
  RequestLogEntry, no_entry, stored, meta_failed, slot_failed, slot_and_rollback_failed, entries,
}
use ocpi_mock_hub.RequestLog.Ring.{Call, add_all, entries-add_all}
use ocpi_mock_hub.Examples.Worlds.{seed}

abbrev entry : String → RequestLogEntry
entry p = record no_entry { path = p }

-- the last write is first
abbrev calls : List Call
calls =
    (stored, entry "/d")
    ∷ (slot_failed, entry "/c")
    ∷ (slot_and_rollback_failed, entry "/b")
    ∷ (meta_failed, entry "/x")
    ∷ (stored, entry "/a")
    ∷ []

entries-add_all_example : entries (add_all calls) ≡ entry "/d" ∷ entry "/a" ∷ []
entries-add_all_example = entries-add_all calls

-- a token that no charge point may accept offline
abbrev never_token : Bytes
never_token = doc (obj (field "whitelist" (str "NEVER") end))

abbrev never_store : MemoryStore
never_store =
    put_token "DE" "EMS" (token_storage_uid "U1" (token_type_of "")) never_token new_memory_store

-- an object with references that name no location
abbrev references : Bytes
references = doc (obj (field "location_references" (obj end) end))

post_token_authorize-allows_example :
    let o = post_token_authorize memory_store "DE" "EMS" "U1" "" seed 0 references never_store in
    (o.state ≡ never_store) × (allows_reply o.reply ≡ true)
unfolding get_mode put_token new_memory_store get_token lookup put token_key token_storage_uid
    to_upper trim_space token_type_of whitelist_of get refers
post_token_authorize-allows_example =
    post_token_authorize-allows memory_store "DE" "EMS" "U1" "" seed 0 references never_store
