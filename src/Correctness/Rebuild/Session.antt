-- ===== src/Correctness/Rebuild/Session.antt =====
-- What a rebuild leaves of a session, and the status that it gives.
use ocpi_mock_hub.Prelude.{String, ◌≡◌, refl, List, [], ◌∷◌, if◌then◌else◌, ap, sym}
use ocpi_mock_hub.Correctness.Types.{CaseDefinition, SessionRuntime, Evaluators}
use ocpi_mock_hub.Correctness.NextStep.{next_step}
use ocpi_mock_hub.Correctness.Rebuild.{
  rebuild_cases, filled, closed, stepped, is_finished, rebuild_session,
}

module _ (evaluators : Evaluators) (now : String) where
  pub rebuild_cases-session :
      (defs : List CaseDefinition) (rt : SessionRuntime)
      → (rebuild_cases evaluators now defs rt).0.session ≡ rt.session
  unfolding rebuild_cases
  rebuild_cases-session [] rt = refl
  rebuild_cases-session (def ∷ defs) rt = rebuild_cases-session defs _

  pub rebuild_cases-suite :
      (defs : List CaseDefinition) (rt : SessionRuntime)
      → (rebuild_cases evaluators now defs rt).0.suite ≡ rt.suite
  unfolding rebuild_cases
  rebuild_cases-suite [] rt = refl
  rebuild_cases-suite (def ∷ defs) rt = rebuild_cases-suite defs _

  pub rebuild_session-id :
      (rt : SessionRuntime) → (rebuild_session evaluators now rt).session.id ≡ rt.session.id
  unfolding rebuild_session closed stepped filled
  rebuild_session-id rt = ap (λ s. s.id) (rebuild_cases-session rt.suite.cases rt)

  pub rebuild_session-status :
      (rt : SessionRuntime)
      → let s = (rebuild_session evaluators now rt).session in
        s.status ≡ (if is_finished s.summary then "completed" else "running")
  unfolding rebuild_session closed
  rebuild_session-status rt = refl

  -- the current step is what nextStep says of the rebuilt session
  pub rebuild_session-current_step :
      (rt : SessionRuntime)
      → let rt' = rebuild_session evaluators now rt in
        rt'.session.current_step ≡ next_step rt'.suite rt'.session
  unfolding rebuild_session closed stepped filled next_step
  rebuild_session-current_step rt =
      ap (λ u. next_step u (rebuild_session evaluators now rt).session)
        (sym (rebuild_cases-suite rt.suite.cases rt))
