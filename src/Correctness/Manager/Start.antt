-- ===== src/Correctness/Manager/Start.antt =====
-- Starting an action (MarkActionStarted, correctness/manager.go) and the order of the suite.
use ocpi_mock_hub.Prelude.{
  String, ◌≡◌, refl, sym, ap, ◌∙◌, inl, inr, some, [], true, false, ◌&&◌, not, ◌==ₛ◌, Dict, lookup,
  Bool-cases, arith, eq_iff,
}
use ocpi_mock_hub.Seed.{Seed}
use ocpi_mock_hub.Correctness.Types.{
  SuiteDefinition, SessionStep, ActionState, SessionRuntime, Evaluators, Manager, is_ok,
}
use ocpi_mock_hub.Correctness.NextStep.{next_step, action_map, case_map}
use ocpi_mock_hub.Correctness.NextStep.Order.{IsActionAt, next_step-IsActionAt}
use ocpi_mock_hub.Correctness.Manager.{mark_action_started, check_startable}
use ocpi_mock_hub.Correctness.Manager.Invariant.{kept}
use ocpi_mock_hub.Correctness.Manager.Reachable.{IsReachable, reachable-IsConsistent}

kept-step :
    (id : String) (rt : SessionRuntime)
    → kept id (some rt) ≡ true
    → rt.session.current_step.action_id ≡ (next_step rt.suite rt.session).action_id
kept-step id rt h =
    ground
      (arith, h, eq_iff rt.session.current_step.action_id (next_step rt.suite rt.session).action_id)

-- an idle action that is not the current step is refused
mark_action_started-refuses :
    (ev : Evaluators) (at now id action : String) (m : Manager) (rt : SessionRuntime)
    (a : ActionState)
    → lookup id m.sessions ≡ some rt
    → lookup action rt.actions ≡ some a
    → a.status ≡ "idle"
    → (rt.session.current_step.action_id ==ₛ action) ≡ false
    → is_ok (mark_action_started ev at now id action m) ≡ false
unfolding mark_action_started check_startable
mark_action_started-refuses ev at now id action m rt a found known idle other =
    elim (Bool-cases (not (m.active_id ==ₛ "") && not (m.active_id ==ₛ id))) [
      | inl e ↦ rw e refl
      | inr e ↦ rw (e, found, known, idle, other) refl
    ]

-- In a reachable state, an idle action with a non-empty id is started only if it is the action that
-- nextStep finds: it belongs to a case of the suite before which every case passed, failed, is
-- blocked, or is manual with all its checkpoints answered.
pub mark_action_started-in_order :
    (ev : Evaluators) (seed : Seed) (suites : Dict SuiteDefinition) (at now id action : String)
    (m : Manager) (rt : SessionRuntime) (a : ActionState)
    → IsReachable ev seed suites m
    → lookup id m.sessions ≡ some rt
    → lookup action rt.actions ≡ some a
    → a.status ≡ "idle"
    → (action ==ₛ "") ≡ false
    → is_ok (mark_action_started ev at now id action m) ≡ true
    → (step : SessionStep) × (step.action_id ≡ action)
      × IsActionAt
          (action_map rt.session.actions [])
          (case_map rt.session.cases [])
          rt.suite.cases
          step
mark_action_started-in_order ev seed suites at now id action m rt a r found known idle named okay =
    elim (Bool-cases (rt.session.current_step.action_id ==ₛ action)) [
      | inl e ↦ (
        next_step rt.suite rt.session,
        is_next e,
        next_step-IsActionAt rt.suite rt.session (rw (is_next e) named),
      )
      | inr e ↦
          absurd
            (refused (mark_action_started-refuses ev at now id action m rt a found known idle e))
    ]
  where
    is_next :
        (rt.session.current_step.action_id ==ₛ action) ≡ true
        → (next_step rt.suite rt.session).action_id ≡ action
    is_next e =
        sym (
          kept-step id rt
            (sym (ap (kept id) found) ∙ (reachable-IsConsistent ev seed suites m r).1 id))
        ∙ (eq_iff rt.session.current_step.action_id action).0 e

    refused : is_ok (mark_action_started ev at now id action m) ≡ false → ⊥
    refused e = ground (arith, okay, e)
