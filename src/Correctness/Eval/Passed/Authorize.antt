-- ===== src/Correctness/Eval/Passed/Authorize.antt =====
-- What a passed real-time authorization (evalOutboundAuthorize, correctness/eval.go) says of the peer's
-- response.
use mathlib.Core.List.{append-eq-nil_iff}
use Prim.Native.String.{◌++◌}
use ocpi_mock_hub.Prelude.{
  ◌≤◌, String, ◌≡◌, refl, Option, none, some, List, [], ◌∷◌, ◌++◌ as ◌++ₗ◌, Bool, true, false, ◌&&◌,
  not, ◌==ₛ◌, ltb, if_cases, Dict, lookup, trim_space, ends_with, arith, eq_iff,
}
use ocpi_mock_hub.Json.{Fields, get}
use ocpi_mock_hub.Auth.{Base64}
use ocpi_mock_hub.Overlay.{OverlayState}
use ocpi_mock_hub.Correctness.Types.{TrafficEvent, ActionState, SessionRuntime}
use ocpi_mock_hub.Correctness.Eval.{
  Tools, OcpiEnvelope, string_value, payload_members, when, is_null_member,
}
use ocpi_mock_hub.Correctness.Eval.Window.{window_events, filter_direction, first_matching_event}
use ocpi_mock_hub.Correctness.Eval.Requests.{validate_response_time}
use ocpi_mock_hub.Correctness.Eval.Responses.{
  in_range, envelope_issues, decoded_envelope, parse_envelope, checked, is_invalid_status,
  authorization_issues, validate_authorization_envelope,
}
use ocpi_mock_hub.Correctness.Eval.Flows.Pushes.{eval_outbound, eval_outbound_authorize}
use ocpi_mock_hub.Correctness.Eval.Passed.{
  AreBlank, append-named, blank-left, blank-right, nil-blank, when-blank, judge-passed,
  pass_gate-passed, await-passed,
}

module _ (tools : Tools) where
  -- the member `allowed` is the expected one: ALLOWED, or one of the statuses of an invalid token
  abbrev pub is_expected : Bool → Option Fields → Bool
  is_expected expect_allowed none = false
  is_expected true (some fs) = string_value tools (get "allowed" fs) ==ₛ "ALLOWED"
  is_expected false (some fs) = is_invalid_status (string_value tools (get "allowed" fs))

  -- a response with a successful OCPI status code, and that member
  abbrev pub answers : Bool → Option OcpiEnvelope → Bool
  answers expect_allowed none = false
  answers expect_allowed (some envelope) =
      in_range 1000 2000 envelope.status_code
      && is_expected expect_allowed (payload_members envelope.payload)

  -- what the issues of an authorization say beyond its member `allowed`
  abbrev other_issues : Bool → Fields → List String
  other_issues expect_allowed fs =
      when
        (expect_allowed
          && (trim_space (string_value tools (get "authorization_reference" fs)) ==ₛ ""))
        "The authorization response did not include authorization_reference for ALLOWED."

  four-blank : (a b c d : List String) → a ++ₗ b ++ₗ c ++ₗ d ≡ [] → AreBlank a × AreBlank b
  four-blank a b c d h =
      let pair = blank-left (a ++ₗ b) c (blank-left (a ++ₗ b ++ₗ c) d (nil-blank _ h)) in
      (blank-left a b pair, blank-right a b pair)

  authorization_issues-nil :
      (expect_allowed : Bool) (fs : Option Fields)
      → authorization_issues tools expect_allowed fs ≡ []
      → is_expected expect_allowed fs ≡ true
  unfolding authorization_issues
  authorization_issues-nil expect_allowed none h = absurd (cc (h))
  authorization_issues-nil true (some fs) h =
      let allowed = string_value tools (get "allowed" fs) in
      let other =
        when-blank (not (allowed ==ₛ "ALLOWED"))
          ("Expected allowed=ALLOWED, got " ++ allowed ++ ".")
          (append-named "Expected allowed=ALLOWED, got " (allowed ++ ".") refl)
          (four-blank
            (when (not (allowed ==ₛ "ALLOWED"))
              ("Expected allowed=ALLOWED, got " ++ allowed ++ "."))
            (when false ("Expected an invalid authorization status, got " ++ allowed ++ "."))
            (when (is_null_member (get "token" fs))
              "The authorization response did not include token.")
            (other_issues true fs) h).0 in
      ground (arith, other)
  authorization_issues-nil false (some fs) h =
      let allowed = string_value tools (get "allowed" fs) in
      let other =
        when-blank (not (is_invalid_status allowed))
          ("Expected an invalid authorization status, got " ++ allowed ++ ".")
          (append-named "Expected an invalid authorization status, got " (allowed ++ ".") refl)
          (four-blank (when false ("Expected allowed=ALLOWED, got " ++ allowed ++ "."))
            (when (not (is_invalid_status allowed))
              ("Expected an invalid authorization status, got " ++ allowed ++ "."))
            (when (is_null_member (get "token" fs))
              "The authorization response did not include token.")
            (other_issues false fs) h).1 in
      ground (arith, other)

  envelope_issues-nil :
      (envelope : OcpiEnvelope)
      → envelope_issues tools true envelope ≡ []
      → in_range 1000 2000 envelope.status_code ≡ true
  unfolding envelope_issues
  envelope_issues-nil envelope h =
      let ranged =
        when-blank (not (in_range 1000 2000 envelope.status_code)) _
          (append-named "Expected a successful OCPI status code, got " _ refl)
          (nil-blank _ (append-eq-nil_iff.0 (append-eq-nil_iff.0 h).0).1) in
      ground (arith, ranged)

  checked-nil :
      (issues : List String) (envelope : OcpiEnvelope) (continue : OcpiEnvelope → List String)
      → checked (issues, some envelope) continue ≡ []
      → (issues ≡ []) × (continue envelope ≡ [])
  unfolding checked
  checked-nil [] envelope continue h = (refl, h)
  checked-nil (i ∷ is) envelope continue h = absurd (cc (h))

  decoded-answers :
      (expect_allowed : Bool) (o : Option OcpiEnvelope)
      → checked (decoded_envelope tools true o) (λ (envelope : OcpiEnvelope).
        authorization_issues tools expect_allowed (payload_members envelope.payload))
        ≡ []
      → answers expect_allowed o ≡ true
  unfolding decoded_envelope checked
  decoded-answers expect_allowed none h = absurd (cc (h))
  decoded-answers expect_allowed (some envelope) h =
      let (issues, rest) = checked-nil (envelope_issues tools true envelope) envelope _ h in
      let ranged = envelope_issues-nil envelope issues in
      let member =
        authorization_issues-nil expect_allowed (payload_members envelope.payload) rest in
      ground (arith, ranged, member)

  validate_authorization_envelope-nil :
      (e : TrafficEvent) (expect_allowed : Bool)
      → validate_authorization_envelope tools e expect_allowed ≡ []
      → answers expect_allowed (tools.read_envelope e.response_body) ≡ true
  unfolding validate_authorization_envelope parse_envelope checked
  validate_authorization_envelope-nil e expect_allowed =
      if_cases {A = List String × Option OcpiEnvelope}
        (λ p.
          checked p (λ (envelope : OcpiEnvelope).
            authorization_issues tools expect_allowed (payload_members envelope.payload))
            ≡ []
          → answers expect_allowed (tools.read_envelope e.response_body) ≡ true)
        (trim_space e.response_body ==ₛ "") (λ blank h. absurd (cc (h)))
        (λ full h. decoded-answers expect_allowed (tools.read_envelope e.response_body) h)

  validate_response_time-nil :
      (e : TrafficEvent) → validate_response_time tools e 2000 ≡ [] → e.duration_ms ≤ 2000
  unfolding validate_response_time
  validate_response_time-nil e h =
      let late =
        when-blank (ltb 2000 e.duration_ms) _ (append-named "The response took " _ refl)
          (nil-blank _ h) in
      ground (arith, late)

-- Where the evaluator of real-time authorizations reports passed, the action is stored, and the
-- first authorization request among the outbound events of its window was answered within 2000 ms
-- by an envelope whose status code lies from 1000 to 1999 and whose member allowed is ALLOWED, or
-- one of the four statuses of an invalid token where that is expected.
pub eval_outbound_authorize-answers :
    (base64 : Base64) (tools : Tools) (overlays : Dict OverlayState) (rt : SessionRuntime)
    (id : String) (expect_allowed : Bool)
    → (eval_outbound_authorize base64 tools overlays rt id expect_allowed).status ≡ "passed"
    → (a : ActionState) × (e : TrafficEvent) × (lookup id rt.actions ≡ some a)
      × (first_matching_event
            (λ e. (e.method ==ₛ "POST") && ends_with e.path "/authorize")
            (filter_direction (window_events rt a.id) "outbound")
          ≡ some e)
      × (e.duration_ms ≤ 2000)
      × (answers tools expect_allowed (tools.read_envelope e.response_body) ≡ true)
unfolding eval_outbound_authorize eval_outbound
eval_outbound_authorize-answers base64 tools overlays rt id expect_allowed h =
    let (a, found, awaited) = pass_gate-passed rt id _ ((eq_iff _ _).1 h) in
    let (e, first, judged) = await-passed _ _ _ awaited in
    let issues = append-eq-nil_iff.0 (judge-passed _ _ _ (e ∷ []) judged) in
    (
      a,
      e,
      found,
      first,
      validate_response_time-nil tools e (append-eq-nil_iff.0 issues.0).1,
      validate_authorization_envelope-nil tools e expect_allowed issues.1,
    )
