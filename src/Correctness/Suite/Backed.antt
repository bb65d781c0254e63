-- ===== src/Correctness/Suite/Backed.antt =====
-- A whole rebuild (rebuildSessionLocked, correctness/manager.go) of a session of the built-in suite
-- (correctness/definitions.go), judged by the built-in evaluators (correctness/eval.go).
use ocpi_mock_hub.Prelude.{
  String, ◌≡◌, refl, ap, ◌∙◌, inl, inr, List, [], ◌∷◌, Bool, true, false, ◌&&◌, ◌||◌, not, ◌==ₛ◌,
  any, all, has, Dict, lookup, put, arith, eq_iff, Bool-cases,
}
use ocpi_mock_hub.Auth.{Base64}
use ocpi_mock_hub.Overlay.{OverlayState}
use ocpi_mock_hub.Correctness.Types.{CaseDefinition, CaseResult, SuiteDefinition, SessionRuntime}
use ocpi_mock_hub.Correctness.Rebuild.{
  rebuilt_case, entered, rebuild_cases, rebuild_session, filled, stepped, closed,
}
use ocpi_mock_hub.Correctness.Eval.{Tools}
use ocpi_mock_hub.Correctness.Eval.Window.{window_events, window_from}
use ocpi_mock_hub.Correctness.Eval.Flows.Builtin.{builtin_evaluators}
use ocpi_mock_hub.Correctness.Eval.Verdicts.{SortKeeps, AreOwn, is_evidence, was_started}
use ocpi_mock_hub.Correctness.Suite.{builtin_suite}
use ocpi_mock_hub.Correctness.Suite.Coherent.{is_coherent, all-coherent, coherent-IsEarned}

-- The result has not passed, or one of the case's actions was started and all the evidence lies in
-- its window.
abbrev pub is_backed : SessionRuntime → CaseDefinition → CaseResult → Bool
is_backed rt def r =
    not (r.status ==ₛ "passed")
    || any
        (λ id. was_started (lookup id rt.actions) && all (is_evidence rt id) r.evidence_event_ids)
        def.action_ids

-- one result for each case, in order
abbrev pub are_backed : SessionRuntime → List CaseDefinition → List CaseResult → Bool
are_backed rt [] [] = true
are_backed rt (def ∷ defs) (r ∷ rs) = is_backed rt def r && are_backed rt defs rs
are_backed rt _ _ = false

any-has :
    (p : String → Bool) (k : String) (ks : List String)
    → has k ks ≡ true
    → p k ≡ true
    → any p ks ≡ true
unfolding has
any-has p k [] h e = h
any-has p k (j ∷ ks) h e = ground (arith, eq_iff j k, ap p {x = j} {y = k}, any-has p k ks)

module _ (base64 : Base64) (tools : Tools) (overlays : Dict OverlayState) (keeps : SortKeeps tools)
    (now : String) where
  rebuilt_case-backed :
      (rt : SessionRuntime) (def : CaseDefinition)
      → AreOwn rt
      → is_coherent def ≡ true
      → is_backed rt def (rebuilt_case (builtin_evaluators base64 tools overlays) now rt def) ≡ true
  rebuilt_case-backed rt def own coherent =
      let r = rebuilt_case (builtin_evaluators base64 tools overlays) now rt def in
      elim (Bool-cases (r.status ==ₛ "passed")) [
        | inl e ↦
            let (free, id, listed, started, evidence) =
              coherent-IsEarned base64 tools overlays keeps rt own def now coherent
                ((eq_iff _ _).0 e) in
            let found =
              any-has
                (λ k.
                  was_started (lookup k rt.actions) && all (is_evidence rt k) r.evidence_event_ids)
                id def.action_ids listed (ground (arith, started, evidence)) in
            ground (arith, found)
        | inr e ↦ ground (arith, e)
      ]

  rebuild_cases-backed :
      (defs : List CaseDefinition) (rt : SessionRuntime)
      → AreOwn rt
      → all is_coherent defs ≡ true
      → are_backed rt defs (rebuild_cases (builtin_evaluators base64 tools overlays) now defs rt).1
        ≡ true
  unfolding rebuild_cases entered window_events window_from
  rebuild_cases-backed [] rt own h = refl
  rebuild_cases-backed (def ∷ defs) rt own h =
      let first = rebuilt_case-backed (entered rt def) def own (ground (arith, h)) in
      let result =
        rebuilt_case (builtin_evaluators base64 tools overlays) now (entered rt def) def in
      let rest =
        rebuild_cases-backed defs (record rt { cases = put def.id result rt.cases }) own
          (ground (arith, h)) in
      ground (arith, first, rest)

  -- a rebuild, for the actions as they stand before it
  pub rebuild_session-backed :
      (rt : SessionRuntime)
      → AreOwn rt
      → rt.suite ≡ builtin_suite
      → are_backed rt rt.suite.cases
          (rebuild_session (builtin_evaluators base64 tools overlays) now rt).session.cases
        ≡ true
  unfolding rebuild_session filled stepped closed
  rebuild_session-backed rt own builtin =
      rebuild_cases-backed rt.suite.cases rt own
        (ap (λ (s : SuiteDefinition). all is_coherent s.cases) builtin ∙ all-coherent)
