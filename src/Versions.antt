-- ===== src/Versions.antt =====
-- GetVersions, GetVersionDetails and verifyTokenA (handlers/versions.go), and PostCredentials
-- (handlers/credentials.go). `store` is the one that storeForRequest picks, `main` is h.Store, which is
-- not nil; strconv.Quote, which %q calls, is a parameter.
pub mod Laws
use ocpi_mock_hub.Prelude.{
  String, Option, none, some, List, [], ◌∷◌, Bool, true, false, ◌&&◌, ◌||◌, ◌==ₛ◌, if◌then◌else◌,
  any, not, trim_space,
}
use Prim.Native.String.{◌++◌}
use text.Mathlib.Text.{starts_with}
use ocpi_mock_hub.Json.{
  Json, str, arr, obj, Items, nil, cons, Fields, end, field, Bytes, read_string, unmarshal,
}
use ocpi_mock_hub.Paging.{RequestOrigin}
use ocpi_mock_hub.Response.{
  Outcome, Reply, Response, respond, reply_with, ok, error, resolve_scheme, resolve_host,
}
use ocpi_mock_hub.Store.{Store, text_or_empty, bytes_or_nil}
use ocpi_mock_hub.Auth.{Base64, auth_token_candidates, auth_header_matches_token, no_candidates}
use ocpi_mock_hub.Credentials.{register_credentials}

-- the key that was decoded
unfoldable pub has_correctness_key : Option String → Bool
has_correctness_key none = false
has_correctness_key (some key) = starts_with (trim_space key) "correctness/"

-- Decoding an empty []byte fails, so that its guard is part of `unmarshal`.
unfoldable pub is_correctness_session_party : Bytes → Bool
unfolding has_correctness_key
is_correctness_session_party raw = has_correctness_key (unmarshal (read_string "key") raw)

unfoldable pub base_url : RequestOrigin → String
base_url r = resolve_scheme r ++ "://" ++ resolve_host r

endpoint : String → String → String → Json
endpoint identifier role url =
    obj (field "identifier" (str identifier) (field "role" (str role) (field "url" (str url) end)))

unfoldable pub version_details : RequestOrigin → Json
unfolding endpoint base_url
version_details r =
    let base = base_url r ++ "/ocpi/2.2.1" in
    obj (
      field "version" (str "2.2.1") (
        field "endpoints"
          (arr (
            cons (endpoint "credentials" "RECEIVER" (base ++ "/credentials")) (
              cons (endpoint "locations" "SENDER" (base ++ "/sender/locations")) (
                cons (endpoint "tariffs" "SENDER" (base ++ "/sender/tariffs")) (
                  cons (endpoint "sessions" "SENDER" (base ++ "/sender/sessions")) (
                    cons (endpoint "cdrs" "SENDER" (base ++ "/sender/cdrs")) (
                      cons (endpoint "tokens" "SENDER" (base ++ "/sender/tokens")) (
                        cons (endpoint "tokens" "RECEIVER" (base ++ "/receiver/tokens")) (
                          cons (endpoint "commands" "RECEIVER" (base ++ "/receiver/commands")) (
                            cons (endpoint "sessions" "RECEIVER" (base ++ "/receiver/sessions")) (
                              cons (endpoint "cdrs" "RECEIVER" (base ++ "/receiver/cdrs")) (
                                cons
                                  (endpoint "chargingprofiles" "RECEIVER"
                                    (base ++ "/receiver/chargingprofiles"))
                                  (cons
                                    (endpoint "hubclientinfo" "SENDER"
                                      (base ++ "/sender/hubclientinfo"))
                                    nil)))))))))))))
          end))

module _ (base64 : Base64) (store main : Store) (token_a : String) where
  -- the part of verifyTokenA that accepts a Token B, for a header with candidates
  unfoldable pub matches_token_b : String → store.State → main.State → Bool
  unfolding is_correctness_session_party
  matches_token_b header s m =
      let token_b = text_or_empty (store.get_token_b s) in
      (not (token_b ==ₛ "") && auth_header_matches_token base64 header token_b)
      || any (λ c. is_correctness_session_party (bytes_or_nil (main.get_party_by_token_b c m)))
          (auth_token_candidates base64 header)

  -- the error that verifyTokenA writes, if it returns false
  unfoldable pub verify_token_a : String → store.State → main.State → Option Response
  unfolding matches_token_b
  verify_token_a header s m =
      if no_candidates (auth_token_candidates base64 header)
      then some (error 401 2001 "Missing authorization token")
      else if auth_header_matches_token base64 header token_a
      then none
      else if matches_token_b header s m
      then none
      else some (error 401 2001 "Invalid authorization token")

  -- `if !h.verifyTokenA(w, r) { return }`
  unfoldable pub guarded : Option Response → Outcome store.State → store.State → Outcome store.State
  guarded none o s = o
  guarded (some refusal) o s = reply_with s refusal

  unfoldable pub get_versions :
      RequestOrigin → String → store.State → main.State → Outcome store.State
  unfolding verify_token_a guarded base_url
  get_versions r header s m =
      guarded (verify_token_a header s m)
        (reply_with s (
          ok (
            arr (
              cons
                (obj (
                  field "version" (str "2.2.1")
                    (field "url" (str (base_url r ++ "/ocpi/2.2.1")) end)))
                nil))))
        s

  unfoldable pub get_version_details :
      (quote : String → String)
      → RequestOrigin
      → String
      → String
      → store.State
      → main.State
      → Outcome store.State
  unfolding verify_token_a guarded version_details
  get_version_details quote r version header s m =
      guarded (verify_token_a header s m)
        (reply_with s (
          if not (version ==ₛ "") && not (version ==ₛ "2.2.1")
          then error 404 3002
              ("Version " ++ quote version ++ " is not supported; this hub only serves 2.2.1")
          else ok (version_details r)))
        s

  unfoldable pub post_credentials :
      String
      → String
      → RequestOrigin
      → String
      → Option Bytes
      → String
      → store.State
      → main.State
      → Outcome store.State
  unfolding verify_token_a guarded
  post_credentials hub_country hub_party r token_b body header s m =
      guarded (verify_token_a header s m)
        (register_credentials store base64 hub_country hub_party r token_b body s) s
