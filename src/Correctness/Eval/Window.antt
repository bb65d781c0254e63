-- ===== src/Correctness/Eval/Window.antt =====
-- The gate of an action and the events of its window (correctness/eval.go): actionGate, windowEvents
-- and the searches in it.
pub mod Exact
use Prim.Native.String.{◌++◌}
use ocpi_mock_hub.Prelude.{
  ℕ, zero, suc, ◌-◌, String, Option, none, some, List, [], ◌∷◌, Bool, true, false, ◌&&◌, ◌||◌, not,
  ◌==ₛ◌, ltb, leb, if◌then◌else◌, filter, length, take, drop, Dict, lookup, values, text_lt,
  trim_space,
}
use ocpi_mock_hub.Correctness.Types.{TrafficEvent, ActionState, CaseEvaluation, SessionRuntime}
use ocpi_mock_hub.Correctness.Eval.{Tools, Stamp, failed_eval, pending_eval}

-- actionGate: an evaluation to return, or the action
pub data Gate : Type 0 where
  closed : CaseEvaluation → Gate
  opened : ActionState → Gate

unfoldable pub gate_of : String → Option ActionState → Gate
unfolding failed_eval pending_eval
gate_of id none = closed (failed_eval ("Missing action definition for " ++ id ++ ".") [] [])
gate_of id (some action) =
    if action.status ==ₛ "idle"
    then closed (pending_eval action.description [])
    else if action.status ==ₛ "failed"
    then closed (failed_eval action.last_error [] [])
    else opened action

unfoldable pub action_gate : SessionRuntime → String → Gate
unfolding gate_of
action_gate rt id = gate_of id (lookup id rt.actions)

-- the lines after the call of actionGate, which return its evaluation or go on with the action
unfoldable pub pass_gate : Gate → (ActionState → CaseEvaluation) → CaseEvaluation
pass_gate (closed eval) continue = eval
pass_gate (opened action) continue = continue action

-- whether the loop takes the candidate's anchor for the end of the window
unfoldable pub ends_window : String → ℕ → ℕ → ActionState → Bool
ends_window id start end candidate =
    not (candidate.id ==ₛ id)
    && not (candidate.last_run_at ==ₛ "")
    && ltb start candidate.event_anchor
    && ltb candidate.event_anchor end

unfoldable pub window_end : String → ℕ → ℕ → List ActionState → ℕ
unfolding ends_window
window_end id start end [] = end
window_end id start end (candidate ∷ rest) =
    window_end id start (if ends_window id start end candidate then candidate.event_anchor else end)
      rest

-- an anchor past the events counts as 0
unfoldable pub window_start : ActionState → List TrafficEvent → ℕ
window_start action events =
    if ltb (length events) action.event_anchor then 0 else action.event_anchor

unfoldable pub window_of : String → SessionRuntime → ActionState → List TrafficEvent
unfolding window_end window_start
window_of id rt action =
    let start = window_start action rt.events in
    let end = window_end id start (length rt.events) (values rt.actions) in
    if leb end start then [] else take (end - start) (drop start rt.events)

unfoldable pub window_from : String → SessionRuntime → Option ActionState → List TrafficEvent
unfolding window_of
window_from id rt none = []
window_from id rt (some action) = window_of id rt action

unfoldable pub window_events : SessionRuntime → String → List TrafficEvent
unfolding window_from
window_events rt id = window_from id rt (lookup id rt.actions)

unfoldable pub filter_direction : List TrafficEvent → String → List TrafficEvent
filter_direction events direction = filter (λ (e : TrafficEvent). e.direction ==ₛ direction) events

unfoldable pub first_matching_event :
    (TrafficEvent → Bool) → List TrafficEvent → Option TrafficEvent
first_matching_event test [] = none
first_matching_event test (e ∷ es) =
    let rest = first_matching_event test es in if test e then some e else rest

-- The n-th match, where n counts down; its 0-th is none.
unfoldable pub nth_matching_event :
    ℕ → (TrafficEvent → Bool) → List TrafficEvent → Option TrafficEvent
nth_matching_event n test [] = none
nth_matching_event zero test (e ∷ es) = none
nth_matching_event (suc n) test (e ∷ es) =
    let here = elim n as (λ k. Option TrafficEvent) [
      | zero ↦ some e
      | suc k ↦ nth_matching_event (suc k) test es
    ] in
    let rest = nth_matching_event (suc n) test es in if test e then here else rest

unfoldable pub is_list_request : String → TrafficEvent → Bool
is_list_request path e = (e.direction ==ₛ "inbound") && (e.method ==ₛ "GET") && (e.path ==ₛ path)

unfoldable pub matching_inbound_list_events :
    Tools → SessionRuntime → String → String → List TrafficEvent
unfolding is_list_request
matching_inbound_list_events tools rt id path =
    tools.sort_slice (λ (a b : TrafficEvent). text_lt a.started_at b.started_at)
      (filter (is_list_request path) (window_events rt id))

-- both times, if both parse, or the texts
unfoldable pub is_before : Option Stamp → Option Stamp → String → String → Bool
is_before (some a) (some b) s t = ltb a.instant b.instant
is_before _ _ s t = text_lt s t

unfoldable pub event_started_before : Tools → TrafficEvent → TrafficEvent → Bool
unfolding is_before
event_started_before tools first second =
    let s = trim_space first.started_at in
    let t = trim_space second.started_at in
    is_before (tools.parse_time "2006-01-02T15:04:05.999999999Z07:00" s)
      (tools.parse_time "2006-01-02T15:04:05.999999999Z07:00" t) s t
