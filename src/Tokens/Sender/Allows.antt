-- ===== src/Tokens/Sender/Allows.antt =====
-- When a real-time authorization is granted.
use ocpi_mock_hub.Prelude.{
  ℕ, zero, suc, String, ◌≡◌, refl, ◌∙◌, Option, none, some, Bool, true, false, ◌&&◌, ◌||◌, not,
  ◌==ₛ◌, if◌then◌else◌, is_some, arith,
}
use ocpi_mock_hub.Json.{
  Json, null, bool, num, str, arr, obj, end, Bytes, is_nil, get, MapResult, map_ok, unmarshal_map,
  string_or_empty,
}
use ocpi_mock_hub.Response.{Reply, Response, respond, panicked, Data, value, raw, page, ok}
use ocpi_mock_hub.Store.{Store, text_or_empty, bytes_or_nil}
use ocpi_mock_hub.Seed.{Seed}
use ocpi_mock_hub.Tokens.{storage_uid}
use ocpi_mock_hub.Tokens.Sender.{
  references_of, backfilled, read_references, whitelist_of, drawn_status, authorization,
  answer_stored, authorize, post_token_authorize,
}

abbrev pub says_allowed : Json → Bool
says_allowed (obj fs) = string_or_empty (get "allowed" fs) ==ₛ "ALLOWED"
says_allowed _ = false

abbrev pub allows_payload : Data → Bool
allows_payload (value j) = says_allowed j
allows_payload (raw b) = false
allows_payload (page bs h) = false

-- the reply says that the token is allowed
abbrev pub allows_reply : Reply → Bool
allows_reply (respond r) = allows_payload r.payload
allows_reply panicked = false

abbrev allows : Response → Bool
allows r = allows_payload r.payload

module _ (store : Store) (cc pid uid query : String) where
  allows-if :
      (b : Bool) (x y : Response) (p q : Bool)
      → allows x ≡ p
      → allows y ≡ q
      → allows (if b then x else y) ≡ (if b then p else q)
  allows-if true x y p q h h' = h
  allows-if false x y p q h h' = h'

  drawn_status-refuses :
      (draw : ℕ)
      → allows (ok (authorization store cc pid uid query (drawn_status draw) end)) ≡ false
  unfolding drawn_status authorization get
  drawn_status-refuses zero = refl
  drawn_status-refuses (suc zero) = refl
  drawn_status-refuses (suc (suc n)) = refl

  answer_stored-allows :
      (seed : Seed) (references : Option String) (b : Bytes)
      → allows (answer_stored store cc pid uid query seed references b) ≡ (
          if (whitelist_of (unmarshal_map b) ==ₛ "NEVER") && not (is_some references)
          then false
          else true)
  unfolding answer_stored authorization get
  answer_stored-allows seed references b = allows-if _ _ _ false true refl refl

  authorize-allows :
      (seed : Seed) (draw : ℕ) (mode : String) (references : Option String) (b : Bytes)
      → allows (authorize store cc pid uid query seed draw mode references b)
        ≡ not (mode ==ₛ "reject")
          && not (mode ==ₛ "auth-fail")
          && not (is_nil b)
          && (not (whitelist_of (unmarshal_map b) ==ₛ "NEVER") || is_some references)
  unfolding authorize authorization get
  authorize-allows seed draw mode references b =
      allows-if (mode ==ₛ "reject") _ _ false _ refl (
        allows-if (mode ==ₛ "auth-fail") _ _ false _ (drawn_status-refuses draw)
          (allows-if (is_nil b) _ _ false _ refl (answer_stored-allows seed references b)))
      ∙ flat (mode ==ₛ "reject") (mode ==ₛ "auth-fail") (is_nil b)
          (whitelist_of (unmarshal_map b) ==ₛ "NEVER") (is_some references)
    where
      flat :
          (r a n w s : Bool)
          → (if r
              then false
              else (if a
                  then false
                  else (if n then false else (if w && not s then false else true))))
            ≡ not r && not a && not n && (not w || s)
      flat r a n w s = ground arith

-- the member is there and is not null
abbrev pub is_given : Option Json → Bool
is_given none = false
is_given (some null) = false
is_given (some j) = true

-- The body is an object with a location_references other than null, whatever it holds, or with a
-- location_id that is a non-empty string.
unfoldable pub refers : MapResult → Bool
refers (map_ok fs) =
    is_given (get "location_references" fs) || not (string_or_empty (get "location_id" fs) ==ₛ "")
refers _ = false

is_some-backfilled :
    (o : Option Json) (id : String)
    → is_some (backfilled (references_of o) id) ≡ is_given o || not (id ==ₛ "")
unfolding references_of backfilled
is_some-backfilled none id = ground arith
is_some-backfilled (some null) id = ground arith
is_some-backfilled (some (bool b)) id = refl
is_some-backfilled (some (num n)) id = refl
is_some-backfilled (some (str t)) id = refl
is_some-backfilled (some (arr js)) id = refl
is_some-backfilled (some (obj fs)) id = refl

is_some-read_references : (r : MapResult) → is_some (read_references r) ≡ refers r
unfolding read_references refers
is_some-read_references (map_ok fs) =
    is_some-backfilled (get "location_references" fs) (string_or_empty (get "location_id" fs))
is_some-read_references _ = refl

-- PostTokenAuthorize leaves the store as it is, and its reply says ALLOWED exactly if the mode is
-- neither reject nor auth-fail, the token is stored, and its whitelist is not NEVER or the body is
-- an object with a location_references other than null, whatever it holds, or with a location_id
-- that is a non-empty string.
pub post_token_authorize-allows :
    (store : Store) (cc pid uid query : String) (seed : Seed) (draw : ℕ) (body : Bytes)
    (s : store.State)
    → let o = post_token_authorize store cc pid uid query seed draw body s in
      let mode = text_or_empty (store.get_mode s) in
      let token = bytes_or_nil (store.get_token cc pid (storage_uid store cc pid uid query) s) in
      (o.state ≡ s)
      × (allows_reply o.reply
          ≡ not (mode ==ₛ "reject")
            && not (mode ==ₛ "auth-fail")
            && not (is_nil token)
            && (not (whitelist_of (unmarshal_map token) ==ₛ "NEVER")
                || refers (unmarshal_map body)))
unfolding post_token_authorize
post_token_authorize-allows store cc pid uid query seed draw body s =
    rw⁻¹ (is_some-read_references (unmarshal_map body)) (
      refl,
      authorize-allows store cc pid uid query seed draw (text_or_empty (store.get_mode s))
          (read_references (unmarshal_map body))
          (bytes_or_nil (store.get_token cc pid (storage_uid store cc pid uid query) s)),
    )
