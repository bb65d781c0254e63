-- ===== src/Versions/Laws.antt =====
-- Who may discover the hub and register: verifyTokenA (handlers/versions.go) and its callers.
use ocpi_mock_hub.Prelude.{
  String, ◌≡◌, ◌≢◌, refl, ap, Option, none, some, List, [], ◌∷◌, Bool, true, false, ◌&&◌, ◌||◌,
  ◌==ₛ◌, if_cases, any, not, arith, eq_iff, ℕ, is_some, if◌then◌else◌, Option-cases, Bool-cases,
  inl, inr,
}
use ocpi_mock_hub.Json.{Bytes, unmarshal}
use ocpi_mock_hub.Paging.{RequestOrigin}
use ocpi_mock_hub.Response.{Reply, Response, respond, panicked, ok}
use ocpi_mock_hub.Store.{Store, text_or_empty, bytes_or_nil}
use ocpi_mock_hub.Auth.{Base64, auth_token_candidates, auth_header_matches_token, no_candidates}
use ocpi_mock_hub.Auth.Laws.{no_candidates-any}
use ocpi_mock_hub.MemoryStore.{MemoryStore}
use ocpi_mock_hub.MemoryStore.Instance.{memory_store}
use ocpi_mock_hub.Credentials.{
  CredentialsPayload, read_credentials, register, register_decoded, register_credentials,
}
use ocpi_mock_hub.Credentials.Laws.{token_b-register}
use ocpi_mock_hub.Versions.{
  is_correctness_session_party, matches_token_b, verify_token_a, guarded, version_details,
  get_version_details, post_credentials,
}

abbrev pub http_status : Reply → Option ℕ
http_status (respond r) = some r.http_status
http_status panicked = none

-- What a body asks to register: the credentials that it decodes to, where it was read and they name
-- a token.
abbrev with_raw : Bytes → Option CredentialsPayload → Option (CredentialsPayload × Bytes)
with_raw body none = none
with_raw body (some creds) = if creds.token ==ₛ "" then none else some (creds, body)

unfoldable pub credentials_in : Option Bytes → Option (CredentialsPayload × Bytes)
credentials_in none = none
credentials_in (some body) = with_raw body (unmarshal read_credentials body)

module _ (base64 : Base64) (store main : Store) (token_a : String) where
  -- A token opens the door: it is Token A, the store's Token B, or that of a correctness session.
  unfoldable pub opens : store.State → main.State → String → Bool
  opens s m c =
      let token_b = text_or_empty (store.get_token_b s) in
      (not (token_a ==ₛ "") && (c ==ₛ token_a))
      || (not (token_b ==ₛ "") && (c ==ₛ token_b))
      || is_correctness_session_party (bytes_or_nil (main.get_party_by_token_b c m))

  any-opens :
      (s : store.State) (m : main.State) (cs : List String)
      → let token_b = text_or_empty (store.get_token_b s) in
        any (opens s m) cs
        ≡ (not (token_a ==ₛ "") && any (λ c. c ==ₛ token_a) cs)
          || (not (token_b ==ₛ "") && any (λ c. c ==ₛ token_b) cs)
          || any
              (λ c. is_correctness_session_party (bytes_or_nil (main.get_party_by_token_b c m)))
              cs
  unfolding opens
  any-opens s m [] = ground arith
  any-opens s m (c ∷ cs) = ground (arith, any-opens s m cs)

  module _ (header : String) (s : store.State) (m : main.State) where
    -- the request's store after a registration of what a body asks to register
    abbrev state_with : String → Option (CredentialsPayload × Bytes) → store.State
    state_with token_b none = s
    state_with token_b (some (creds, body)) = register store base64 creds token_b body s

    register_credentials_lem :
        (hub_country hub_party : String) (r : RequestOrigin) (token_b : String)
        (body : Option Bytes)
        → let o = register_credentials store base64 hub_country hub_party r token_b body s in
          (o.state ≡ state_with token_b (credentials_in body))
          × (http_status o.reply ≡ some (if is_some (credentials_in body) then 200 else 400))
    unfolding register_credentials register_decoded credentials_in
    register_credentials_lem hub_country hub_party r token_b none = (refl, refl)
    register_credentials_lem hub_country hub_party r token_b (some body) =
        elim (Option-cases (unmarshal read_credentials body)) [
          | inl e ↦ rw (e, register_decoded) (refl, refl)
          | inr (creds, e) ↦ elim (Bool-cases (creds.token ==ₛ "")) [
            | inl missing ↦ rw (e, register_decoded, missing) (refl, refl)
            | inr given ↦ rw (e, register_decoded, given) (refl, refl)
          ]
        ]

    abbrev is_open : Bool
    is_open = any (opens s m) (auth_token_candidates base64 header)

    matched :
        auth_header_matches_token base64 header token_a
          || matches_token_b base64 store main token_a header s m
        ≡ is_open
    unfolding matches_token_b auth_header_matches_token
    matched = ground (arith, any-opens s m (auth_token_candidates base64 header))

    verify_token_a-opens :
        is_open ≡ true → verify_token_a base64 store main token_a header s m ≡ none
    unfolding verify_token_a
    verify_token_a-opens h =
        if_cases {A = Option Response} (λ o. o ≡ none)
          (no_candidates (auth_token_candidates base64 header))
          (λ e. absurd (
            ground
              (arith, h, no_candidates-any (opens s m) (auth_token_candidates base64 header) e)))
          (λ e.
            if_cases {A = Option Response} (λ o. o ≡ none)
              (auth_header_matches_token base64 header token_a) (λ e'. refl)
              (λ e'.
                if_cases {A = Option Response} (λ o. o ≡ none)
                  (matches_token_b base64 store main token_a header s m) (λ e''. refl)
                  (λ e''. absurd (ground (arith, h, matched, e', e'')))))

    IsRefusal : Option Response → Type 0
    IsRefusal o = (r : Response) × (o ≡ some r) × (r.http_status ≡ 401)

    verify_token_a-refuses :
        is_open ≡ false → IsRefusal (verify_token_a base64 store main token_a header s m)
    unfolding verify_token_a IsRefusal
    verify_token_a-refuses h =
        if_cases {A = Option Response} IsRefusal
          (no_candidates (auth_token_candidates base64 header)) (λ e. (_, refl, refl))
          (λ e.
            if_cases {A = Option Response} IsRefusal
              (auth_header_matches_token base64 header token_a)
              (λ e'. absurd (ground (arith, h, matched, e')))
              (λ e'.
                if_cases {A = Option Response} IsRefusal
                  (matches_token_b base64 store main token_a header s m)
                  (λ e''. absurd (ground (arith, h, matched, e''))) (λ e''. (_, refl, refl))))

    -- POST of credentials is admitted exactly if one of the tokens that the Authorization header
    -- can mean is the non-empty Token A, the non-empty Token B of the request's store, or belongs
    -- to a party of a correctness session. Admitted, it registers the credentials that the body
    -- decodes to, with status 200, and where the body is not read, does not decode or names no
    -- token, it answers 400 and leaves the store as it was; not admitted, it answers 401 and leaves
    -- the store as it was.
    pub post_credentials-guarded :
        (hub_country hub_party : String) (r : RequestOrigin) (token_b : String)
        (body : Option Bytes)
        → let o =
            post_credentials base64 store main token_a hub_country hub_party r token_b body header s
              m in
          let admitted = any (opens s m) (auth_token_candidates base64 header) in
          (o.state ≡ (if admitted then state_with token_b (credentials_in body) else s))
          × (http_status o.reply
              ≡ some
                  (if admitted then (if is_some (credentials_in body) then 200 else 400) else 401))
    unfolding post_credentials guarded IsRefusal
    post_credentials-guarded hub_country hub_party r token_b body =
        let registered = register_credentials store base64 hub_country hub_party r token_b body s in
        elim (Bool-cases is_open) [
          | inl admitted ↦
              rw (verify_token_a-opens admitted, admitted)
                (register_credentials_lem hub_country hub_party r token_b body)
          | inr refused ↦
              let (refusal, same, status) = verify_token_a-refuses refused in
              rw (refused, same, guarded) (refl, ap some status)
        ]

-- Once a registration has answered, its Token B opens the door for the rest of the handshake.
module _ (base64 : Base64) (main : Store) (token_a : String) (creds : CredentialsPayload)
    (token_b : String) (raw_body : Bytes) where
  any_own :
      (cs : List String) (p : String → Bool)
      → p token_b ≡ true
      → any (λ c. c ==ₛ token_b) cs ≡ true
      → any p cs ≡ true
  any_own [] p h held = held
  any_own (c ∷ cs) p h held =
      ground (arith, eq_iff c token_b, ap p {x = c} {y = token_b}, any_own cs p h)

  -- After a registration over an in-memory store with a non-empty Token B, a request whose
  -- Authorization header can mean that token is given the details of version 2.2.1.
  get_version_details-registered :
      (quote : String → String) (r : RequestOrigin) (header : String) (s : MemoryStore)
      (m : main.State)
      → token_b ≢ ""
      → any (λ c. c ==ₛ token_b) (auth_token_candidates base64 header) ≡ true
      → let s' = register memory_store base64 creds token_b raw_body s in
        (get_version_details base64 memory_store main token_a quote r "2.2.1" header s' m).reply
        ≡ respond (ok (version_details r))
  unfolding get_version_details guarded opens
  get_version_details-registered quote r header s m h held =
      let s' = register memory_store base64 creds token_b raw_body s in
      let known : opens base64 memory_store main token_a s' m token_b ≡ true = ground (
        arith,
        token_b-register base64 creds token_b raw_body s,
        h,
        eq_iff token_b "",
        eq_iff token_b token_b,
      ) in
      rw
        (verify_token_a-opens base64 memory_store main token_a header s' m
          (any_own (auth_token_candidates base64 header) _ known held))
        refl
