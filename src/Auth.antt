-- ===== src/Auth.antt =====
-- Authorization headers (ocpiutil/auth.go) and the token middleware (hub/auth.go). The decoder
-- base64.StdEncoding is a parameter: decoding yields `none` where it returns an error, and encoding is
-- what json.Marshal does to a []byte.
pub mod Laws
use Prim.Native.Char.{code}
use ocpi_mock_hub.Prelude.{
  ℕ, String, Option, none, some, List, [], ◌∷◌, Bool, true, false, ◌&&◌, ◌||◌, ◌==ₛ◌, ◌==◌,
  if◌then◌else◌, equal_fold, trim_space, any, not, or_else,
}
use Prim.Native.String.{◌++◌}
use text.Mathlib.Text.{starts_with}
use ocpi_mock_hub.Json.{Bytes, no_bytes, is_nil}
use ocpi_mock_hub.Store.{Store, text_or_empty, bytes_or_nil}

pub record Base64 : Type 0 where
  pub decode : String → Option String
  pub encode : Bytes → String

-- strings.SplitN(s, " ", 2): the parts before and after the first space, `none` without a space
cons_part : String → Option (String × String) → Option (String × String)
cons_part c none = none
cons_part c (some (a, b)) = some (c ++ a, b)

split_space : String → Option (String × String)
unfolding cons_part
split_space String.[] = none
split_space (String.◌∷◌ c s) =
    let rest = split_space s in
    if code c == b' ' then some ("", s) else cons_part (String.◌∷◌ c String.[]) rest

-- the part of AuthTokenCandidates from `raw` on
decoded_candidates : String → Option String → List String
decoded_candidates raw none = raw ∷ []
decoded_candidates raw (some decoded) =
    if (decoded ==ₛ "") || (decoded ==ₛ raw) then raw ∷ [] else raw ∷ decoded ∷ []

candidates_of : Base64 → Option (String × String) → List String
unfolding decoded_candidates trim_space
candidates_of base64 none = []
candidates_of base64 (some (scheme, rest)) =
    let raw = trim_space rest in
    if not (equal_fold scheme "token") || (raw ==ₛ "")
    then []
    else decoded_candidates raw (base64.decode raw)

-- AuthTokenCandidates; the empty header has no space
unfoldable pub auth_token_candidates : Base64 → String → List String
unfolding split_space candidates_of equal_fold
auth_token_candidates base64 header = candidates_of base64 (split_space header)

-- AuthHeaderMatchesToken
unfoldable pub auth_header_matches_token : Base64 → String → String → Bool
auth_header_matches_token base64 header expected =
    if expected ==ₛ ""
    then false
    else any (λ c. c ==ₛ expected) (auth_token_candidates base64 header)

abbrev pub no_candidates : List String → Bool
no_candidates [] = true
no_candidates _ = false

-- The paths that TokenAuthMiddleware lets through unchecked.
unfoldable pub is_public : String → String → Bool
is_public path method =
    (path ==ₛ "/ocpi/versions")
    || (path ==ₛ "/ocpi/2.2.1")
    || ((path ==ₛ "/ocpi/2.2.1/credentials") && (method ==ₛ "POST"))
    || (path ==ₛ "/admin")
    || starts_with path "/admin/"
    || starts_with path "/api/tick"
    || (path ==ₛ "/")

-- The middleware serves the request, or answers 401 with OCPI status 2001 and a message.
pub data Verdict : Type 0 where
  serve : Verdict
  unauthorized : String → Verdict

module _ (base64 : Base64) (store : Store) where
  -- matchesAnyPartyToken: `party, _ :=` drops the error
  unfoldable pub matches_any_party_token : List String → store.State → Bool
  matches_any_party_token candidates s =
      any (λ c. not (is_nil (bytes_or_nil (store.get_party_by_token_b c s)))) candidates

  -- the two equal blocks of TokenAuthMiddleware; `correctness` is MatchesInboundRequest
  unfoldable pub fall_back : List String → Bool → String → store.State → Verdict
  fall_back candidates correctness message s =
      if matches_any_party_token candidates s || correctness then serve else unauthorized message

  unfoldable pub token_auth : String → String → String → Bool → store.State → Verdict
  token_auth path method header correctness s =
      let candidates = auth_token_candidates base64 header in
      let token_b = text_or_empty (store.get_token_b s) in
      if is_public path method
      then serve
      else if no_candidates candidates
      then unauthorized "Missing authorization token"
      else if token_b ==ₛ ""
      then fall_back candidates correctness "Handshake not completed" s
      else if auth_header_matches_token base64 header token_b
      then serve
      else fall_back candidates correctness "Invalid authorization token" s
