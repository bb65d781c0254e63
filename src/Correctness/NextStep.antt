-- ===== src/Correctness/NextStep.antt =====
-- nextStep, firstMessage and tailEvents (correctness/manager.go).
pub mod Order
use ocpi_mock_hub.Prelude.{
  ℕ, ◌-◌, String, Option, none, some, List, [], ◌∷◌, Bool, ◌||◌, not, ◌==ₛ◌, leb, if◌then◌else◌,
  or_else, length, drop, Dict, lookup, put,
}
use ocpi_mock_hub.Correctness.Types.{
  SuiteDefinition, CaseDefinition, TestSession, SessionStep, ActionState, CaseResult,
  CheckpointState, TrafficEvent, no_action, no_case, no_step,
}

unfoldable pub first_message : List String → String
first_message [] = ""
first_message (m ∷ ms) = m

-- `len(events) == 0 || limit <= 0` gives nil, which is the empty list as well
unfoldable pub tail_events : List TrafficEvent → ℕ → List TrafficEvent
tail_events events limit =
    if leb limit 0
    then []
    else if leb (length events) limit
    then events
    else drop (length events - limit) events

-- actionMap and caseMap: a later entry replaces an earlier one of its id
unfoldable pub action_map : List ActionState → Dict ActionState → Dict ActionState
action_map [] m = m
action_map (a ∷ rest) m = action_map rest (put a.id a m)

unfoldable pub case_map : List CaseResult → Dict CaseResult → Dict CaseResult
case_map [] m = m
case_map (c ∷ rest) m = case_map rest (put c.id c m)

-- the manual case: its first checkpoint that is not answered
unfoldable pub open_checkpoint : CaseResult → List CheckpointState → Option SessionStep
open_checkpoint r [] = none
open_checkpoint r (cp ∷ cps) =
    let rest = open_checkpoint r cps in
    if cp.status ==ₛ "answered"
    then rest
    else some (record { title = r.title; description = cp.prompt; action_id = ""; case_id = r.id })

unfoldable pub message_step : CaseResult → SessionStep
unfolding first_message
message_step r = record {
  title = r.title;
  description = first_message r.messages;
  action_id = "";
  case_id = r.id;
}

unfoldable pub action_step : CaseDefinition → ActionState → String → SessionStep
action_step def a description = record {
  title = a.title;
  description = description;
  action_id = a.id;
  case_id = def.id;
}

-- the default case: its first action that is idle, failed or running
unfoldable pub open_action : CaseDefinition → Dict ActionState → List String → Option SessionStep
unfolding action_step
open_action def actions [] = none
open_action def actions (id ∷ ids) =
    let rest = open_action def actions ids in
    let a = or_else (lookup id actions) no_action in
    if (a.status ==ₛ "idle") || (a.status ==ₛ "failed")
    then some (action_step def a a.description)
    else if a.status ==ₛ "running"
    then some (action_step def a "Action is running.")
    else rest

unfoldable pub keep_first : Option SessionStep → SessionStep → Option SessionStep
keep_first none step = some step
keep_first (some first) step = some first

abbrev pub session_complete : SessionStep
session_complete = record {
  title = "Session Complete";
  description = "All currently included OCPI correctness checks reached a terminal state.";
  action_id = "";
  case_id = "";
}

-- the loop over the suite's cases, with blockedStep
unfoldable pub step_loop :
    Dict ActionState → Dict CaseResult → Option SessionStep → List CaseDefinition → SessionStep
unfolding open_checkpoint message_step open_action keep_first
step_loop actions cases blocked [] = or_else blocked session_complete
step_loop actions cases blocked (def ∷ defs) =
    let r = or_else (lookup def.id cases) no_case in
    let kept = if r.status ==ₛ "blocked" then keep_first blocked (message_step r) else blocked in
    let rest = step_loop actions cases kept defs in
    if r.status ==ₛ "passed"
    then rest
    else if r.status ==ₛ "manual"
    then or_else (open_checkpoint r r.checkpoints) rest
    else if (r.status ==ₛ "failed") || (r.status ==ₛ "blocked")
    then rest
    else or_else (open_action def actions def.action_ids) (message_step r)

unfoldable pub next_step : SuiteDefinition → TestSession → SessionStep
unfolding action_map case_map step_loop
next_step suite session =
    step_loop (action_map session.actions []) (case_map session.cases []) none suite.cases
