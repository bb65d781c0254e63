-- ===== src/Correctness/Scope/Laws.antt =====
-- Whom the active correctness session lets through the middleware, and the addresses that belong to it.
use ocpi_mock_hub.Prelude.{
  String, ◌≡◌, refl, ap, inl, inr, Option, none, some, Bool, true, false, ◌&&◌, ◌||◌, not, ◌==ₛ◌,
  if◌then◌else◌, any, lookup, Bool-cases, arith,
}
use ocpi_mock_hub.Store.{Store, text_or_empty}
use ocpi_mock_hub.MemoryStore.{MemoryStore}
use ocpi_mock_hub.MemoryStore.Instance.{memory_store}
use ocpi_mock_hub.MemoryStore.Parties.{IsIndexed}
use ocpi_mock_hub.Auth.{
  Base64, auth_token_candidates, auth_header_matches_token, is_public, token_auth, no_candidates,
}
use ocpi_mock_hub.Auth.Laws.{admits, is_known, token_auth_lem, no_candidates-any}
use ocpi_mock_hub.Correctness.Types.{SessionRuntime, Manager}
use ocpi_mock_hub.Correctness.Scope.{
  InboundRequest, InboundCaptureDecision, peer_headers_match_session,
  inbound_request_matches_session, decide_for, decide_active, inbound_capture_decision,
  matches_inbound_request,
}

matches_if :
    (b : Bool) (x y : InboundCaptureDecision)
    → x.matches ≡ true
    → y.matches ≡ false
    → (if b then x else y).matches ≡ b
matches_if true x y h h' = h
matches_if false x y h h' = h'

module _ (base64 : Base64) (overlay : Store) where
  -- The request can mean the overlay's non-empty Token B, and its party headers agree.
  abbrev pub is_own : SessionRuntime → overlay.State → InboundRequest → Bool
  is_own rt s r =
      not (text_or_empty (overlay.get_token_b s) ==ₛ "")
      && any (λ c. c ==ₛ text_or_empty (overlay.get_token_b s))
          (auth_token_candidates base64 r.authorization)
      && peer_headers_match_session rt r.from_country_code r.from_party_id true

  abbrev pub is_active_own : Option SessionRuntime → overlay.State → InboundRequest → Bool
  is_active_own none s r = false
  is_active_own (some rt) s r = is_own rt s r

  inbound_request_matches_session_lem :
      (rt : SessionRuntime) (s : overlay.State) (r : InboundRequest)
      → inbound_request_matches_session base64 overlay rt s r ≡ is_own rt s r
  unfolding inbound_request_matches_session auth_header_matches_token
  inbound_request_matches_session_lem rt s r = ground arith

  decide_for-matches :
      (rt : SessionRuntime) (s : overlay.State) (r : InboundRequest)
      → (decide_for base64 overlay rt s r).matches ≡ is_own rt s r
  unfolding decide_for
  decide_for-matches rt s r =
      let cs = auth_token_candidates base64 r.authorization in
      let token_b = text_or_empty (overlay.get_token_b s) in
      elim (Bool-cases (no_candidates cs)) [
        | inl e ↦ rw (e, no_candidates-any (λ c. c ==ₛ token_b) cs e) (ground arith)
        | inr e ↦
            rw (e, inbound_request_matches_session_lem rt s r)
              (matches_if (is_own rt s r) _ _ refl refl)
      ]

  decide_active-matches :
      (o : Option SessionRuntime) (s : overlay.State) (r : InboundRequest)
      → (decide_active base64 overlay o s r).matches ≡ is_active_own o s r
  unfolding decide_active
  decide_active-matches none s r = refl
  decide_active-matches (some rt) s r = decide_for-matches rt s r

  matches_inbound_request_lem :
      (m : Manager) (s : overlay.State) (r : InboundRequest)
      → matches_inbound_request base64 overlay m s r
        ≡ is_active_own (lookup m.active_id m.sessions) s r
  unfolding matches_inbound_request inbound_capture_decision
  matches_inbound_request_lem m s r = decide_active-matches (lookup m.active_id m.sessions) s r

-- Over an in-memory hub store whose token index is exact, the middleware together with
-- MatchesInboundRequest admits a request exactly if its path is public, one of its tokens is the
-- hub's, or there is an active correctness session whose overlay has a non-empty Token B among the
-- request's tokens and whose peer's party headers agree.
pub token_auth-session :
    (base64 : Base64) (overlay : Store) (m : Manager) (s : overlay.State) (r : InboundRequest)
    (path method : String) (hub : MemoryStore)
    → IsIndexed hub
    → admits (
        token_auth base64 memory_store path method r.authorization
          (matches_inbound_request base64 overlay m s r)
          hub)
      ≡ is_public path method
        || any (is_known hub) (auth_token_candidates base64 r.authorization)
        || is_active_own base64 overlay (lookup m.active_id m.sessions) s r
token_auth-session base64 overlay m s r path method hub h =
    rw
      (
        token_auth_lem base64 path method r.authorization
            (matches_inbound_request base64 overlay m s r) hub h,
        matches_inbound_request_lem base64 overlay m s r,
      )
      (ap
        (λ b.
          is_public path method
          || any (is_known hub) (auth_token_candidates base64 r.authorization)
          || b)
        (named (lookup m.active_id m.sessions)))
  where
    named :
        (o : Option SessionRuntime)
        → (not (no_candidates (auth_token_candidates base64 r.authorization))
            && is_active_own base64 overlay o s r)
          ≡ is_active_own base64 overlay o s r
    named none = ground arith
    named (some rt) = ground (
      arith,
      no_candidates-any (λ c. c ==ₛ text_or_empty (overlay.get_token_b s))
          (auth_token_candidates base64 r.authorization),
    )
