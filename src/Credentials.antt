-- ===== src/Credentials.antt =====
-- The credentials handlers (handlers/credentials.go) and resetHandshakeState
-- (handlers/connection_state.go), over the store that storeForRequest picks. The new Token B, a
-- uuid.NewString(), is an argument.
pub mod Laws
use ocpi_mock_hub.Prelude.{
  String, Option, none, some, List, [], ◌∷◌, Bool, true, false, ◌&&◌, ◌||◌, ◌==ₛ◌, if◌then◌else◌,
  not, has, or_else, is_some, to_upper, trim_space, ◌>>=◌,
}
use Prim.Native.String.{◌++◌}
use ocpi_mock_hub.Json.{
  Json, null, str, arr, obj, Items, nil, cons, Fields, end, field, Bytes, no_bytes, doc, is_blank,
  get, unmarshal, unmarshal_json, read_string, to_struct, string_field,
}
use ocpi_mock_hub.Paging.{RequestOrigin}
use ocpi_mock_hub.Response.{
  Outcome, Reply, respond, reply_with, ok, error, resolve_scheme, resolve_host,
}
use ocpi_mock_hub.Store.{Store, text_or_empty}
use ocpi_mock_hub.Auth.{Base64}

pub record Role : Type 0 where
  pub role : String
  pub party_id : String
  pub country_code : String

pub record CredentialsPayload : Type 0 where
  pub token : String
  pub url : String
  pub party_id : String
  pub country_code : String
  pub roles : List Role

-- business_details is decoded, and its errors count, but its name is never used
read_details : Option Json → Option String
read_details none = some ""
read_details (some j) = unmarshal_json (read_string "name") j

read_role : Fields → Option Role
unfolding read_details
read_role fs = do
  role ← read_string "role" fs
  party_id ← read_string "party_id" fs
  country_code ← read_string "country_code" fs
  details ← read_details (get "business_details" fs)
  some (record { role = role; party_id = party_id; country_code = country_code })

roles_of_items : Items → Option (List Role)
unfolding read_role
roles_of_items nil = some []
roles_of_items (cons j js) =
    let rest = roles_of_items js in
    do role ← unmarshal_json read_role j; roles ← rest; some (role ∷ roles)

roles_of : Option Json → Option (List Role)
unfolding roles_of_items
roles_of none = some []
roles_of (some null) = some []
roles_of (some (arr js)) = roles_of_items js
roles_of (some _) = none

unfoldable pub read_credentials : Fields → Option CredentialsPayload
unfolding roles_of read_details
read_credentials fs = do
  token ← read_string "token" fs
  url ← read_string "url" fs
  party_id ← read_string "party_id" fs
  country_code ← read_string "country_code" fs
  details ← read_details (get "business_details" fs)
  roles ← roles_of (get "roles" fs)
  some (record {
    token = token;
    url = url;
    party_id = party_id;
    country_code = country_code;
    roles = roles;
  })

pub record RoleEntry : Type 0 where
  pub country_code : String
  pub party_id : String
  pub role : String

unfoldable pub party_key : String → String → String
party_key cc pid = cc ++ "/" ++ pid

unfoldable pub normalize : String → String
normalize s = to_upper (trim_space s)

-- the first loop of persistCredentialRoles
unfoldable pub role_entries : List String → List Role → List RoleEntry
role_entries seen [] = []
role_entries seen (r ∷ roles) =
    let cc = normalize r.country_code in
    let pid = normalize r.party_id in
    let skipped = role_entries seen roles in
    let kept = role_entries (party_key cc pid ∷ seen) roles in
    if (cc ==ₛ "") || (pid ==ₛ "")
    then skipped
    else if has (party_key cc pid) seen
    then skipped
    else record { country_code = cc; party_id = pid; role = to_upper r.role } ∷ kept

-- the entry of older callers, which advertise no usable role
unfoldable pub fallback_entries : CredentialsPayload → List RoleEntry
fallback_entries creds =
    let cc = normalize creds.country_code in
    let pid = normalize creds.party_id in
    if (cc ==ₛ "") || (pid ==ₛ "")
    then []
    else record { country_code = cc; party_id = pid; role = "EMSP" } ∷ []

abbrev or_fallback : List RoleEntry → List RoleEntry → List RoleEntry
or_fallback [] fallback = fallback
or_fallback (e ∷ es) fallback = e ∷ es

unfoldable pub entries_of : CredentialsPayload → List RoleEntry
entries_of creds = or_fallback (role_entries [] creds.roles) (fallback_entries creds)

-- json.Marshal of the party state: `credentials` is a []byte under omitempty
unfoldable pub party_state : Base64 → CredentialsPayload → String → Bytes → RoleEntry → Bytes
party_state base64 creds token_b raw_body e = doc (
    obj (
      field "key" (str (party_key e.country_code e.party_id)) (
        field "country_code" (str e.country_code) (
          field "party_id" (str e.party_id) (
            field "token_b" (str token_b) (
              field "own_token" (str creds.token) (
                field "callback_url" (str creds.url) (
                  string_field "credentials" (base64.encode raw_body)
                    (field "role" (str e.role) end)))))))))

-- the hub's own credentials; `roles` is omitted where it is empty
hub_role : String → String → Json
hub_role hub_country hub_party = obj (
    field "role" (str "HUB") (
      field "party_id" (str hub_party) (
        field "country_code" (str hub_country)
          (field "business_details" (obj (field "name" (str "OCPI Mock Hub") end)) end))))

hub_credentials : String → String → RequestOrigin → String → Fields → Json
hub_credentials hub_country hub_party r token_b roles = obj (
    field "token" (str token_b) (
      field "url" (str (resolve_scheme r ++ "://" ++ resolve_host r ++ "/ocpi/versions")) (
        string_field "party_id" hub_party (
          string_field "country_code" hub_country
            (field "business_details" (obj (field "name" (str "OCPI Mock Hub") end)) roles)))))

module _ (store : Store) where
  -- a write whose error is dropped
  abbrev pub try : (store.State → Option store.State) → store.State → store.State
  try f s = or_else (f s) s

  module _ (base64 : Base64) where
    -- the second loop of persistCredentialRoles
    unfoldable pub put_entries :
        CredentialsPayload → String → Bytes → List RoleEntry → store.State → store.State
    put_entries creds token_b raw_body [] s = s
    put_entries creds token_b raw_body (e ∷ es) s = put_entries creds token_b raw_body es (
        try
          (store.put_party (party_key e.country_code e.party_id)
            (party_state base64 creds token_b raw_body e))
          s)

    unfoldable pub persist_credential_roles :
        CredentialsPayload → String → Bytes → store.State → store.State
    unfolding put_entries
    persist_credential_roles creds token_b raw_body s =
        put_entries creds token_b raw_body (entries_of creds) s

    -- the stores of registerCredentials, in order
    unfoldable pub register : CredentialsPayload → String → Bytes → store.State → store.State
    unfolding persist_credential_roles
    register creds token_b body s =
        let s₁ = try (store.set_emsp_credentials body) s in
        let s₂ = try (store.set_emsp_own_token creds.token) s₁ in
        let s₃ = if creds.url ==ₛ "" then s₂ else try (store.set_emsp_callback_url creds.url) s₂ in
        let s₄ = try (store.set_token_b token_b) s₃ in
        persist_credential_roles creds token_b body s₄

    -- registerCredentials from the decoded payload on
    unfoldable pub register_decoded :
        String
        → String
        → RequestOrigin
        → String
        → Bytes
        → Option CredentialsPayload
        → store.State
        → Outcome store.State
    unfolding register hub_credentials hub_role
    register_decoded hub_country hub_party r token_b body none s =
        reply_with s (error 400 2003 "Invalid JSON payload")
    register_decoded hub_country hub_party r token_b body (some creds) s =
        if creds.token ==ₛ ""
        then reply_with s (error 400 2003 "Token is required")
        else reply_with (register creds token_b body s) (
            ok (
              hub_credentials hub_country hub_party r token_b
                (field "roles" (arr (cons (hub_role hub_country hub_party) nil)) end)))

    unfoldable pub register_credentials :
        String → String → RequestOrigin → String → Option Bytes → store.State → Outcome store.State
    unfolding register_decoded read_credentials
    register_credentials hub_country hub_party r token_b none s =
        reply_with s (error 400 2000 "Failed to read request body")
    register_credentials hub_country hub_party r token_b (some body) s =
        register_decoded hub_country hub_party r token_b body (unmarshal read_credentials body) s

  -- resetHandshakeState: every write is made, and the errors are joined
  unfoldable pub reset_handshake_state : store.State → store.State × Bool
  reset_handshake_state s =
      let r₁ = store.set_token_b "" s in
      let r₂ = store.set_emsp_callback_url "" (or_else r₁ s) in
      let r₃ = store.set_emsp_credentials no_bytes (or_else r₂ (or_else r₁ s)) in
      let s₃ = or_else r₃ (or_else r₂ (or_else r₁ s)) in
      let r₄ = store.set_emsp_own_token "" s₃ in
      let r₅ = store.set_emsp_versions_url "" (or_else r₄ s₃) in
      (
        or_else r₅ (or_else r₄ s₃),
        is_some r₁ && is_some r₂ && is_some r₃ && is_some r₄ && is_some r₅,
      )

  unfoldable pub delete_credentials : store.State → Outcome store.State
  unfolding reset_handshake_state
  delete_credentials s =
      let (s', done) = reset_handshake_state s in
      if done
      then reply_with s' (ok null)
      else reply_with s' (error 500 3000 "Failed to clear connection state")

  unfoldable pub get_credentials :
      String → String → RequestOrigin → store.State → Outcome store.State
  unfolding hub_credentials
  get_credentials hub_country hub_party r s =
      let token_b = text_or_empty (store.get_token_b s) in
      if token_b ==ₛ ""
      then reply_with s (error 404 2004 "No credentials exchanged yet")
      else reply_with s (ok (hub_credentials hub_country hub_party r token_b end))
