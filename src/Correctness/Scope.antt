-- ===== src/Correctness/Scope.antt =====
-- Which requests belong to the active correctness session (correctness/scope.go). The overlay store
-- of the active session is any Store with its state; url.Parse is a test that says whether it returns
-- no error. A request is never nil.
pub mod Laws
use ocpi_mock_hub.Prelude.{
  String, Option, none, some, List, [], ◌∷◌, Bool, true, false, ◌&&◌, ◌||◌, not, ◌==ₛ◌,
  if◌then◌else◌, any, has, add, or_else, lookup, to_upper, trim_space, trim_slashes, ◌++◌ as ◌++ₗ◌,
}
use ocpi_mock_hub.Json.{Bytes, unmarshal, read_string}
use ocpi_mock_hub.Store.{Store, text_or_empty}
use ocpi_mock_hub.Auth.{Base64, auth_token_candidates, auth_header_matches_token, no_candidates}
use ocpi_mock_hub.Correctness.Types.{SessionRuntime, Manager}

-- of an inbound http.Request what is read: the headers and the path
pub record InboundRequest : Type 0 where
  pub authorization : String
  pub from_country_code : String
  pub from_party_id : String
  pub path : String

-- of an outbound one: the action of its context's meta, the URL and the header
pub record OutboundRequest : Type 0 where
  pub action_id : String
  pub url : String
  pub authorization : String

pub record InboundCaptureDecision : Type 0 where
  pub matches : Bool
  pub capture : Bool

abbrev pub no_decision : InboundCaptureDecision
no_decision = record { matches = false; capture = false }

-- strings.ToUpper(strings.TrimSpace(s))
unfoldable pub normalized : String → String
unfolding to_upper trim_space
normalized s = to_upper (trim_space s)

unfoldable pub peer_headers_match_session : SessionRuntime → String → String → Bool → Bool
unfolding normalized
peer_headers_match_session rt from_country from_party allow_empty =
    let peer_country = normalized rt.session.peer.country_code in
    let peer_party = normalized rt.session.peer.party_id in
    let country = normalized from_country in
    let party = normalized from_party in
    if (peer_country ==ₛ "") || (peer_party ==ₛ "")
    then true
    else if allow_empty && (country ==ₛ "") && (party ==ₛ "")
    then true
    else (country ==ₛ peer_country) && (party ==ₛ peer_party)

unfoldable pub is_handshake_discovery_path : String → Bool
unfolding trim_space
is_handshake_discovery_path path =
    let p = trim_space path in (p ==ₛ "/ocpi/versions") || (p ==ₛ "/ocpi/2.2.1")

-- appendURL, `is_url` for a url.Parse without an error
unfoldable pub append_url : (String → Bool) → String → List String → List String
unfolding trim_space has
append_url is_url raw urls =
    let url = trim_space raw in
    if (url ==ₛ "") || not (is_url url) || has url urls then urls else urls ++ₗ (url ∷ [])

-- the loop over the entries of one list, whose errors are dropped
unfoldable pub append_entries : (String → Bool) → List Bytes → List String → List String
unfolding append_url
append_entries is_url [] urls = urls
append_entries is_url (entry ∷ entries) urls =
    append_entries is_url entries
      (elim (unmarshal (read_string "_response_url") entry) as (λ o. List String) [
        | none ↦ urls
        | some response_url ↦ append_url is_url response_url urls
      ])

unfoldable pub inbound_handshake_discovery_candidate :
    Base64 → SessionRuntime → InboundRequest → Bool
unfolding is_handshake_discovery_path peer_headers_match_session
inbound_handshake_discovery_candidate base64 rt r =
    let expected = trim_space rt.session.config.peer_token in
    if not (is_handshake_discovery_path r.path)
    then false
    else if no_candidates (auth_token_candidates base64 r.authorization)
    then false
    else if (expected ==ₛ "") || not (auth_header_matches_token base64 r.authorization expected)
    then false
    else peer_headers_match_session rt r.from_country_code r.from_party_id true

module _ (base64 : Base64) (store : Store) where
  unfoldable pub callback_urls : (String → Bool) → store.State → List String
  unfolding append_entries
  callback_urls is_url s =
      append_entries is_url (or_else (store.list_reservations s) [])
        (append_entries is_url (or_else (store.list_sessions s) []) [])

  unfoldable pub is_session_callback_url : (String → Bool) → store.State → String → Bool
  unfolding callback_urls trim_slashes
  is_session_callback_url is_url s target =
      any (λ raw. trim_slashes raw ==ₛ target) (callback_urls is_url s)

  unfoldable pub inbound_request_matches_session :
      SessionRuntime → store.State → InboundRequest → Bool
  unfolding peer_headers_match_session
  inbound_request_matches_session rt s r =
      let token_b = text_or_empty (store.get_token_b s) in
      if (token_b ==ₛ "") || not (auth_header_matches_token base64 r.authorization token_b)
      then false
      else peer_headers_match_session rt r.from_country_code r.from_party_id true

  unfoldable pub decide_for : SessionRuntime → store.State → InboundRequest → InboundCaptureDecision
  unfolding inbound_request_matches_session inbound_handshake_discovery_candidate
  decide_for rt s r =
      if no_candidates (auth_token_candidates base64 r.authorization)
      then no_decision
      else if inbound_request_matches_session rt s r
      then record { matches = true; capture = true }
      else record { matches = false; capture = inbound_handshake_discovery_candidate base64 rt r }

  unfoldable pub decide_active :
      Option SessionRuntime → store.State → InboundRequest → InboundCaptureDecision
  unfolding decide_for
  decide_active none s r = no_decision
  decide_active (some rt) s r = decide_for rt s r

  -- inboundCaptureDecisionLocked
  unfoldable pub inbound_capture_decision :
      Manager → store.State → InboundRequest → InboundCaptureDecision
  unfolding decide_active
  inbound_capture_decision m s r = decide_active (lookup m.active_id m.sessions) s r

  unfoldable pub matches_inbound_request : Manager → store.State → InboundRequest → Bool
  unfolding inbound_capture_decision
  matches_inbound_request m s r = (inbound_capture_decision m s r).matches

  unfoldable pub should_capture_inbound_request : Manager → store.State → InboundRequest → Bool
  unfolding inbound_capture_decision
  should_capture_inbound_request m s r = (inbound_capture_decision m s r).capture

  unfoldable pub outbound_request_matches_session_token :
      SessionRuntime → store.State → OutboundRequest → Bool
  outbound_request_matches_session_token rt s req =
      let own = text_or_empty (store.get_emsp_own_token s) in
      let expected = if own ==ₛ "" then rt.session.config.peer_token else own in
      if expected ==ₛ "" then true else auth_header_matches_token base64 req.authorization expected

  unfoldable pub captures_outbound :
      (String → Bool) → SessionRuntime → store.State → OutboundRequest → Bool
  unfolding is_session_callback_url outbound_request_matches_session_token trim_slashes
  captures_outbound is_url rt s req =
      let target = trim_slashes req.url in
      if not (req.action_id ==ₛ "")
      then true
      else if target ==ₛ ""
      then false
      else is_session_callback_url is_url s target
        && outbound_request_matches_session_token rt s req

  unfoldable pub should_capture_outbound_request :
      (String → Bool) → Manager → store.State → OutboundRequest → Bool
  unfolding captures_outbound
  should_capture_outbound_request is_url m s req = elim (lookup m.active_id m.sessions) [
    | none ↦ false
    | some rt ↦ captures_outbound is_url rt s req
  ]
