-- ===== src/Examples/Tokens.antt =====
-- The theorems on tokens, parties and credentials at concrete inputs.
use ocpi_mock_hub.Prelude.{
  some, String, ◌≡◌, ◌||◌, ◌&&◌, refl, [], ◌∷◌, true, false, lookup, any, not, has, to_upper,
  trim_space, arith, eq_iff, put, without,
}
use ocpi_mock_hub.Json.{Bytes, no_bytes, doc, obj, str, field, end, get}
use ocpi_mock_hub.MemoryStore.{
  MemoryStore, new_memory_store, put_party, token_b_of, get_party_by_token_b, bind_token_b,
  first_party,
}
use ocpi_mock_hub.MemoryStore.Instance.{memory_store}
use ocpi_mock_hub.MemoryStore.Parties.{
  IsIndexed, holds, new_memory_store-IsIndexed, put_party-IsIndexed,
}
use ocpi_mock_hub.MemoryStore.Lookup.{
  IsFound, put_op, delete_op, apply_ops, get_party_by_token_b_sound,
}
use ocpi_mock_hub.Auth.{token_auth, is_public, no_candidates, auth_token_candidates}
use ocpi_mock_hub.Auth.Laws.{admits, is_known, token_auth_lem}
use ocpi_mock_hub.Credentials.{
  CredentialsPayload, read_credentials, register, delete_credentials, entries_of, role_entries,
  normalize, party_key,
}
use ocpi_mock_hub.Credentials.Laws.{is_entry, register-revokes, delete_credentials-keeps_token}
use ocpi_mock_hub.Overlay.{
  default_overlay_state, put_overlay_party, delete_overlay_party, get_overlay_party_by_token_b,
}
use ocpi_mock_hub.Overlay.Laws.{delete_overlay_party-forgets}
use ocpi_mock_hub.Versions.{post_credentials, is_correctness_session_party}
use ocpi_mock_hub.Versions.Laws.{opens, http_status, credentials_in, post_credentials-guarded}
use ocpi_mock_hub.Examples.Worlds.{base64, origin}

abbrev party : String → Bytes
party token = doc (obj (field "token_b" (str token) end))

-- two roles of one connection share a token
abbrev shared : MemoryStore
shared = put_party "DE/BBB" (party "tok") (put_party "DE/AAA" (party "tok") new_memory_store)

shared-IsIndexed : IsIndexed shared
shared-IsIndexed =
    put_party-IsIndexed "DE/BBB" (party "tok") _
      (put_party-IsIndexed "DE/AAA" (party "tok") new_memory_store new_memory_store-IsIndexed)

get_party_by_token_b_sound_example : IsFound "tok" (
    apply_ops
      (put_op "DE/AAA" (party "tok") ∷ put_op "DE/BBB" (party "tok") ∷ delete_op "DE/AAA" ∷ [])
      new_memory_store)
get_party_by_token_b_sound_example =
    get_party_by_token_b_sound
      (put_op "DE/AAA" (party "tok") ∷ put_op "DE/BBB" (party "tok") ∷ delete_op "DE/AAA" ∷ [])
      "tok"

token_auth_lem_example :
    admits (token_auth base64 memory_store "/ocpi/2.2.1/sessions" "GET" "Token tok" false shared)
    ≡ is_public "/ocpi/2.2.1/sessions" "GET"
      || any (is_known shared) (auth_token_candidates base64 "Token tok")
      || (not (no_candidates (auth_token_candidates base64 "Token tok")) && false)
token_auth_lem_example =
    token_auth_lem base64 "/ocpi/2.2.1/sessions" "GET" "Token tok" false shared shared-IsIndexed

abbrev creds : CredentialsPayload
creds = record {
  token = "emsp-token";
  url = "https://emsp.test/ocpi/versions";
  party_id = "";
  country_code = "";
  roles = record { role = "EMSP"; party_id = "bbb"; country_code = "de" } ∷ [];
}

-- one party, which registers again
abbrev single : MemoryStore
single = put_party "DE/BBB" (party "old") new_memory_store

single-IsIndexed : IsIndexed single
single-IsIndexed =
    put_party-IsIndexed "DE/BBB" (party "old") new_memory_store new_memory_store-IsIndexed

advertised :
    (k : String)
    → holds "old" (lookup k single.parties) ≡ true
    → is_entry k (entries_of creds) ≡ true
unfolding lookup put without new_memory_store is_entry entries_of role_entries normalize to_upper
    trim_space has party_key put_party token_b_of get
advertised k h = ground arith

register-revokes_example :
    admits (
      token_auth base64 memory_store "/ocpi/2.2.1/sessions" "GET" "Token old" false
        (register memory_store base64 creds "new" (doc (obj end)) single))
    ≡ false
unfolding is_public auth_token_candidates
register-revokes_example =
    register-revokes base64 creds "new" (doc (obj end)) "old" "/ocpi/2.2.1/sessions" "GET"
      "Token old" single single-IsIndexed (λ e. ground (arith, e, eq_iff "old" "new")) advertised
      refl refl

delete_credentials-keeps_token_example :
    is_known
      (delete_credentials memory_store
        (register memory_store base64 creds "new" (doc (obj end)) new_memory_store)).state
      "new"
    ≡ true
unfolding entries_of role_entries normalize to_upper trim_space has party_key
delete_credentials-keeps_token_example =
    delete_credentials-keeps_token base64 creds "new" (doc (obj end)) new_memory_store
      (record { country_code = "DE"; party_id = "BBB"; role = "EMSP" }) [] (λ e. cc) refl

delete_overlay_party-forgets_example :
    let s' = delete_overlay_party "DE/BBB" (
      put_overlay_party "DE/BBB"
        (party "tok")
        (put_overlay_party "DE/AAA" (party "tok") default_overlay_state)) in
    (lookup "DE/AAA" s'.parties ≡ some (party "tok"))
    × (get_overlay_party_by_token_b "tok" s' ≡ no_bytes)
unfolding token_b_of get
delete_overlay_party-forgets_example =
    delete_overlay_party-forgets "DE/AAA" "DE/BBB" "tok" (party "tok") (party "tok")
      default_overlay_state refl refl refl refl

-- the main store has the party of a correctness session
abbrev discovered : MemoryStore
discovered =
    put_party "DE/CCC"
      (doc (obj (field "key" (str "correctness/1") (field "token_b" (str "suite") end))))
      new_memory_store

abbrev creds_body : Bytes
creds_body = doc (
    obj (
      field "token" (str "emsp-token")
        (field "country_code" (str "DE") (field "party_id" (str "BBB") end))))

abbrev decoded_creds : CredentialsPayload
decoded_creds = record {
  token = "emsp-token";
  url = "";
  party_id = "BBB";
  country_code = "DE";
  roles = [];
}

post_credentials-guarded_example :
    let o =
      post_credentials base64 memory_store memory_store "A" "NL" "HUB" origin "new"
        (some creds_body)
        "Token suite"
        new_memory_store
        discovered in
    (o.state ≡ register memory_store base64 decoded_creds "new" creds_body new_memory_store)
    × (http_status o.reply ≡ some 200)
unfolding opens credentials_in read_credentials auth_token_candidates get new_memory_store put_party
    get_party_by_token_b bind_token_b lookup put without first_party is_correctness_session_party
    token_b_of
post_credentials-guarded_example =
    post_credentials-guarded base64 memory_store memory_store "A" "Token suite" new_memory_store
      discovered "NL" "HUB" origin "new" (some creds_body)
