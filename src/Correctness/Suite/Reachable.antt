-- ===== src/Correctness/Suite/Reachable.antt =====
-- The sessions of a manager that NewManager (correctness/manager.go) made for the built-in suites
-- (correctness/definitions.go), with the built-in evaluators (correctness/eval.go).
use ocpi_mock_hub.Prelude.{
  String, ◌≡◌, refl, sym, ap, ◌∙◌, some, [], ◌∷◌, true, ◌==ₛ◌, List, Dict, lookup, put, or_else,
  inl, inr, Bool-cases, arith,
}
use ocpi_mock_hub.Seed.{Seed}
use ocpi_mock_hub.Auth.{Base64}
use ocpi_mock_hub.Overlay.{OverlayState}
use ocpi_mock_hub.Correctness.Types.{
  SuiteDefinition, CaseDefinition, CaseResult, SessionRuntime, Evaluators, Manager,
}
use ocpi_mock_hub.Correctness.Rebuild.{rebuild_session, rebuild_cases}
use ocpi_mock_hub.Correctness.Manager.{new_runtime, started, reset_checkpoints_for_action}
use ocpi_mock_hub.Correctness.Manager.Reachable.{IsReachable}
use ocpi_mock_hub.Correctness.Manager.Induction.{IsInductive, reachable-Every}
use ocpi_mock_hub.Correctness.Manager.Anchored.{IsPlaced, IsPlaced-IsInductive, stored-anchored}
use ocpi_mock_hub.Correctness.Persist.RoundTrip.{Every-lookup}
use ocpi_mock_hub.Correctness.Eval.{Tools}
use ocpi_mock_hub.Correctness.Eval.Window.{window_events, window_from}
use ocpi_mock_hub.Correctness.Eval.Flows.Builtin.{builtin_evaluators}
use ocpi_mock_hub.Correctness.Eval.Verdicts.{SortKeeps, AreOwn}
use ocpi_mock_hub.Correctness.Suite.{builtin_suite, builtin_suites, suite_map}
use ocpi_mock_hub.Correctness.Suite.Backed.{are_backed, rebuild_session-backed}

-- the suites of NewManager
abbrev pub registered_suites : Dict SuiteDefinition
registered_suites = suite_map builtin_suites []

registered_suites-only :
    (key : String) (suite : SuiteDefinition)
    → lookup key registered_suites ≡ some suite
    → suite ≡ builtin_suite
unfolding suite_map builtin_suites lookup put
registered_suites-only key suite h = elim (Bool-cases (builtin_suite.id ==ₛ key)) [
  | inl e ↦ sym (ap (λ o. or_else o suite) (rw e at h))
  | inr e ↦ absurd (ground (arith, e, h))
]

-- a session of the built-in suite, before a rebuild
IsBuiltin : SessionRuntime → Type 0
IsBuiltin rt = IsPlaced rt × (rt.suite ≡ builtin_suite)

module _ (base64 : Base64) (tools : Tools) (overlays : Dict OverlayState)
    (keeps : SortKeeps tools) where
  abbrev evaluators : Evaluators
  evaluators = builtin_evaluators base64 tools overlays

  -- a session of the built-in suite, as a rebuild leaves it
  IsBacked : SessionRuntime → Type 0
  IsBacked rt = IsBuiltin rt × (are_backed rt rt.suite.cases rt.session.cases ≡ true)

  module _ (now : String) where
    -- the loop changes nothing but the cases
    rebuild_cases-same :
        (defs : List CaseDefinition) (rt : SessionRuntime)
        → (rebuild_cases evaluators now defs rt).0
          ≡ record rt { cases = (rebuild_cases evaluators now defs rt).0.cases }
    unfolding rebuild_cases
    rebuild_cases-same [] rt = refl
    rebuild_cases-same (def ∷ defs) rt = rebuild_cases-same defs _

    rebuild_session-suite :
        (rt : SessionRuntime) → (rebuild_session evaluators now rt).suite ≡ rt.suite
    unfolding rebuild_session
    rebuild_session-suite rt =
        ap (λ (r : SessionRuntime). r.suite) (rebuild_cases-same rt.suite.cases rt)

    -- what is backed in a session is so after a rebuild, which keeps its actions and events
    are_backed-rebuild :
        (rt : SessionRuntime) (defs : List CaseDefinition) (rs : List CaseResult)
        → are_backed (rebuild_session evaluators now rt) defs rs ≡ are_backed rt defs rs
    unfolding rebuild_session window_events window_from
    are_backed-rebuild rt defs rs =
        ap (λ (r : SessionRuntime). are_backed r defs rs) (rebuild_cases-same rt.suite.cases rt)

  own_actions : (rt : SessionRuntime) → IsPlaced rt → AreOwn rt
  own_actions rt p id a known = (stored-anchored rt id a p known).0

  IsBacked-IsInductive : IsInductive evaluators registered_suites IsBuiltin IsBacked
  unfolding IsBuiltin IsBacked IsPlaced new_runtime started reset_checkpoints_for_action
  IsBacked-IsInductive =
      let placed = IsPlaced-IsInductive evaluators registered_suites in
      record {
        rebuilt = λ now rt b.
            let next = rebuild_session evaluators now rt in
            (
              (placed.rebuilt now rt b.0, rebuild_session-suite now rt ∙ b.1),
              are_backed-rebuild now rt next.suite.cases next.session.cases
                  ∙ ap (λ (s : SuiteDefinition). are_backed rt s.cases next.session.cases)
                      (rebuild_session-suite now rt)
                  ∙ rebuild_session-backed base64 tools overlays keeps now rt (own_actions rt b.0)
                      b.1,
            );
        kept = λ rt p. p.0;
        fresh = λ key id at suite seed cfg found.
            (placed.fresh key id at suite seed cfg found, registered_suites-only key suite found);
        grown = λ rt event b. (placed.grown rt event b.0, b.1);
        begun = λ at action rt a known b. (placed.begun at action rt a known b.0, b.1);
        changed = λ action rt a c known named anchored b.
            (placed.changed action rt a c known named anchored b.0, b.1);
        peered = λ rt peer b. b;
        answered = λ at id answer notes rt b. b;
        seeded = λ rt seed b. b;
      }

  -- Over libraries whose sort only permutes, with the built-in evaluators, which read the
  -- sandboxes' stores from given blobs: in every state that the manager's operations reach from an
  -- empty one that has the built-in suite, failed ones included, where new session ids are not in
  -- use, each stored session is one of that suite and has one result for each case, in order, and
  -- each that says passed belongs to a case with an action that is neither idle nor failed, and in
  -- whose window all of the result's evidence was recorded.
  pub reachable-backed :
      (seed : Seed) (m : Manager)
      → IsReachable evaluators seed registered_suites m
      → (key : String) (rt : SessionRuntime) → lookup key m.sessions ≡ some rt
      → (rt.suite ≡ builtin_suite) × (are_backed rt rt.suite.cases rt.session.cases ≡ true)
  unfolding IsBuiltin IsBacked
  reachable-backed seed m r key rt stored =
      let backed =
        Every-lookup IsBacked key m.sessions rt (reachable-Every IsBacked-IsInductive seed m r).2
          stored in
      (backed.0.1, backed.1)
