-- ===== src/Correctness/Persist/Whole.antt =====
-- The operations of the manager (correctness/manager.go) and the completeness of its sessions.
use ocpi_mock_hub.Prelude.{◌≡◌, ap, ◌∙◌, Dict, lookup}
use ocpi_mock_hub.Seed.{Seed}
use ocpi_mock_hub.Correctness.Types.{SuiteDefinition, Evaluators, Manager}
use ocpi_mock_hub.Correctness.Manager.{started, started_action, reset_checkpoints_for_action}
use ocpi_mock_hub.Correctness.Manager.Reachable.{Op, apply_op, after}
use ocpi_mock_hub.Correctness.Manager.Induction.{IsInductive, apply_op-AreFine}
use ocpi_mock_hub.Correctness.Persist.RoundTrip.{Every, IsComplete, IsRegistry}
use ocpi_mock_hub.Correctness.Persist.Complete.{
  IsComplete-grown, rebuild_session-IsComplete, new_runtime-IsComplete, put-IsGrown,
  reset_cases-IsGrown, answer_cases-IsGrown,
}

module _ (base : Seed) (suites : Dict SuiteDefinition) (registry : IsRegistry suites) where
  -- a manager of the base seed and the suites, whose sessions are complete
  abbrev pub IsWhole : Manager → Type 0
  IsWhole m = (m.base_seed ≡ base) × (m.suites ≡ suites) × Every (IsComplete suites) m.sessions

  IsComplete-IsInductive :
      (ev : Evaluators) → IsInductive ev suites (IsComplete suites) (IsComplete suites)
  unfolding started started_action reset_checkpoints_for_action
  IsComplete-IsInductive ev = record {
    rebuilt = λ now rt p. rebuild_session-IsComplete suites ev now rt p;
    kept = λ rt p. p;
    fresh = λ key id at suite seed cfg found.
        let entry = registry key suite found in
        new_runtime-IsComplete suites id at suite seed cfg entry.1
          (ap (λ k. lookup k suites) entry.0 ∙ found);
    grown = λ rt event p. p;
    begun = λ at action rt a known p.
        IsComplete-grown suites rt _ _ (put-IsGrown action (started_action at rt a) rt.actions)
          (reset_cases-IsGrown action rt.suite.cases rt.cases) p;
    changed = λ action rt a b known named anchored p.
        IsComplete-grown suites rt _ rt.cases (put-IsGrown action b rt.actions) (λ k e. e) p;
    peered = λ rt peer p. p;
    answered = λ at id answer notes rt p.
        IsComplete-grown suites rt rt.actions _ (λ k e. e)
          (answer_cases-IsGrown at id answer notes rt.cases) p;
    seeded = λ rt seed p. p;
  }

  pub apply_op-IsWhole :
      (ev : Evaluators) (op : Op) (m : Manager) → IsWhole m → IsWhole (after m (apply_op ev op m))
  apply_op-IsWhole ev op m h = apply_op-AreFine (IsComplete-IsInductive ev) op m h
