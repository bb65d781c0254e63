-- ===== src/Correctness/Eval/Verdicts.antt =====
-- What every verdict of the evaluators (correctness/eval.go) satisfies.
pub mod Traffic
pub mod Rules
pub mod Flows
pub mod Builtin
use ocpi_mock_hub.Prelude.{
  ℕ, zero, suc, String, ◌≡◌, refl, sym, ap, ◌∙◌, inl, inr, Option, none, some, List, [], ◌∷◌, Bool,
  true, false, ◌&&◌, ◌||◌, not, ◌==ₛ◌, ltb, leb, ◌-◌, if◌then◌else◌, if_cases, any, all, filter,
  take, drop, lookup, values, text_lt, trim_space, to_lower, contains, length, arith, eq_refl,
  eq_iff,
}
use ocpi_mock_hub.Correctness.Types.{
  TrafficEvent, ActionState, CheckpointState, CaseEvaluation, SessionRuntime,
}
use ocpi_mock_hub.Correctness.Eval.{
  Tools, collect_event_ids, passed_eval, pending_eval, failed_eval, manual_eval, answered_eval,
  manual_or_passed, judge, await, await_some,
}
use ocpi_mock_hub.Correctness.Eval.Window.{
  Gate, closed, opened, gate_of, action_gate, pass_gate, window_start, window_end, is_list_request,
  window_of, window_from, window_events, filter_direction, first_matching_event, nth_matching_event,
  matching_inbound_list_events,
}

-- sort.Slice only permutes: what holds of every element still does.
abbrev pub SortKeeps : Tools → Type 0
SortKeeps tools =
    (less : TrafficEvent → TrafficEvent → Bool) (p : TrafficEvent → Bool) (es : List TrafficEvent)
    → all p es ≡ true
    → all p (tools.sort_slice less es) ≡ true

-- Every action stands under its own id.
abbrev pub AreOwn : SessionRuntime → Type 0
AreOwn rt = (id : String) (a : ActionState) → lookup id rt.actions ≡ some a → a.id ≡ id

-- the event has the id of one in the action's window
abbrev pub is_recorded : SessionRuntime → String → TrafficEvent → Bool
is_recorded rt id e = any (λ (r : TrafficEvent). r.id ==ₛ e.id) (window_events rt id)

-- a piece of evidence: the id, which is not empty, of an event in the action's window
abbrev pub is_evidence : SessionRuntime → String → String → Bool
is_evidence rt id k = not (k ==ₛ "") && any (λ (r : TrafficEvent). r.id ==ₛ k) (window_events rt id)

abbrev pub is_verdict : String → Bool
is_verdict s = (s ==ₛ "passed") || (s ==ₛ "failed") || (s ==ₛ "pending") || (s ==ₛ "manual")

abbrev pub was_started : Option ActionState → Bool
was_started none = false
was_started (some a) = not (a.status ==ₛ "idle") && not (a.status ==ₛ "failed")

-- A verdict of an evaluator that waits for an action: its status is one of four, its evidence is
-- recorded traffic, and it passes, or waits for the tester, only once the action was started.
pub record IsVerdict (rt : SessionRuntime) (id : String) (v : CaseEvaluation) : Type 0 where
  pub decided : is_verdict v.status ≡ true
  pub evidence : all (is_evidence rt id) v.evidence_event_ids ≡ true
  pub started :
      (v.status ==ₛ "passed") || (v.status ==ₛ "manual") ≡ true
      → was_started (lookup id rt.actions) ≡ true
