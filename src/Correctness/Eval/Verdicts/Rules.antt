-- ===== src/Correctness/Eval/Verdicts/Rules.antt =====
-- Rules for the ways in which the evaluators (correctness/eval.go) put verdicts together.
use ocpi_mock_hub.Prelude.{
  String, ◌≡◌, refl, ap, ◌∙◌, Option, none, some, List, [], ◌∷◌, true, ◌||◌, ◌==ₛ◌, if_cases, all,
  lookup, trim_space, to_lower, contains, arith,
}
use ocpi_mock_hub.Correctness.Types.{
  TrafficEvent, ActionState, CheckpointState, CaseEvaluation, SessionRuntime,
}
use ocpi_mock_hub.Correctness.Eval.{
  passed_eval, pending_eval, failed_eval, manual_eval, answered_eval, manual_or_passed, judge,
  await, await_some,
}
use ocpi_mock_hub.Correctness.Eval.Window.{Gate, gate_of, action_gate, pass_gate}
use ocpi_mock_hub.Correctness.Eval.Verdicts.{AreOwn, is_recorded, was_started, IsVerdict}
use ocpi_mock_hub.Correctness.Eval.Verdicts.Traffic.{all_option, collect_event_ids-recorded}

module _ (rt : SessionRuntime) where
  module _ (id : String) where
    pub pending_eval-IsVerdict :
        (message : String) (es : List TrafficEvent)
        → all (is_recorded rt id) es ≡ true
        → IsVerdict rt id (pending_eval message es)
    unfolding pending_eval
    pending_eval-IsVerdict message es h = record {
      decided = refl;
      evidence = collect_event_ids-recorded rt id es h;
      started = λ e. cc;
    }

    pub failed_eval-IsVerdict :
        (intro : String) (issues : List String) (es : List TrafficEvent)
        → all (is_recorded rt id) es ≡ true
        → IsVerdict rt id (failed_eval intro issues es)
    unfolding failed_eval
    failed_eval-IsVerdict intro issues es h = record {
      decided = refl;
      evidence = collect_event_ids-recorded rt id es h;
      started = λ e. cc;
    }

    -- the gate lets only a started action through
    pub pass_gate-IsVerdict :
        (continue : ActionState → CaseEvaluation)
        → AreOwn rt
        → ((a : ActionState)
            → was_started (lookup id rt.actions) ≡ true
            → a.id ≡ id
            → IsVerdict rt id (continue a))
        → IsVerdict rt id (pass_gate (action_gate rt id) continue)
    unfolding action_gate gate_of pass_gate
    pass_gate-IsVerdict continue own next = passed (lookup id rt.actions) refl
      where
        passed :
            (o : Option ActionState)
            → lookup id rt.actions ≡ o
            → IsVerdict rt id (pass_gate (gate_of id o) continue)
        passed none h = failed_eval-IsVerdict _ [] [] refl
        passed (some a) h =
            if_cases {A = Gate} (λ g. IsVerdict rt id (pass_gate g continue)) (a.status ==ₛ "idle")
              (λ e. pending_eval-IsVerdict a.description [] refl)
              (λ e.
                if_cases {A = Gate} (λ g. IsVerdict rt id (pass_gate g continue))
                  (a.status ==ₛ "failed") (λ e'. failed_eval-IsVerdict a.last_error [] [] refl)
                  (λ e'. next a (ap was_started h ∙ ground (arith, e, e')) (own id a h)))

    module _ (is_started : was_started (lookup id rt.actions) ≡ true) where
      pub judge-IsVerdict :
          (intro : String) (issues : List String) (message : String) (es : List TrafficEvent)
          → all (is_recorded rt id) es ≡ true
          → IsVerdict rt id (judge intro issues message es)
      unfolding judge passed_eval
      judge-IsVerdict intro [] message es h = record {
        decided = refl;
        evidence = collect_event_ids-recorded rt id es h;
        started = λ e. is_started;
      }
      judge-IsVerdict intro (issue ∷ issues) message es h =
          failed_eval-IsVerdict intro (issue ∷ issues) es h

      manual_eval-IsVerdict :
          (intro : String) (es : List TrafficEvent)
          → all (is_recorded rt id) es ≡ true
          → IsVerdict rt id (manual_eval intro es)
      unfolding manual_eval
      manual_eval-IsVerdict intro es h = record {
        decided = refl;
        evidence = collect_event_ids-recorded rt id es h;
        started = λ e. is_started;
      }

      pub manual_or_passed-IsVerdict :
          (checkpoint : Option CheckpointState) (intro : String) (es : List TrafficEvent)
          → all (is_recorded rt id) es ≡ true
          → IsVerdict rt id (manual_or_passed checkpoint intro es)
      unfolding manual_or_passed answered_eval
      manual_or_passed-IsVerdict none intro es h = manual_eval-IsVerdict intro es h
      manual_or_passed-IsVerdict (some cp) intro es h =
          if_cases {A = CaseEvaluation} (IsVerdict rt id) (trim_space cp.answer ==ₛ "")
            (λ e. manual_eval-IsVerdict intro es h)
            (λ e.
              if_cases {A = CaseEvaluation} (IsVerdict rt id)
                (contains (to_lower (trim_space cp.answer)) "still present"
                  || contains (to_lower (trim_space cp.answer)) "not removed")
                (λ e'. record {
                  decided = refl;
                  evidence = collect_event_ids-recorded rt id es h;
                  started = λ s. is_started;
                })
                (λ e'. record {
                  decided = refl;
                  evidence = collect_event_ids-recorded rt id es h;
                  started = λ s. is_started;
                }))

    pub await-IsVerdict :
        (o : Option TrafficEvent) (waiting : CaseEvaluation) (found : TrafficEvent → CaseEvaluation)
        → all_option (is_recorded rt id) o ≡ true
        → IsVerdict rt id waiting
        → ((e : TrafficEvent) → is_recorded rt id e ≡ true → IsVerdict rt id (found e))
        → IsVerdict rt id (await o waiting found)
    unfolding await
    await-IsVerdict none waiting found h w f = w
    await-IsVerdict (some e) waiting found h w f = f e h

    pub await_some-IsVerdict :
        (es : List TrafficEvent) (waiting : CaseEvaluation)
        (found : List TrafficEvent → CaseEvaluation)
        → all (is_recorded rt id) es ≡ true
        → IsVerdict rt id waiting
        → ((es' : List TrafficEvent)
            → all (is_recorded rt id) es' ≡ true
            → IsVerdict rt id (found es'))
        → IsVerdict rt id (await_some es waiting found)
    unfolding await_some
    await_some-IsVerdict [] waiting found h w f = w
    await_some-IsVerdict (e ∷ es) waiting found h w f = f (e ∷ es) h
