-- ===== src/Correctness/Rebuild.antt =====
-- rebuildSessionLocked (correctness/manager.go): every case is evaluated in the suite's order, a
-- case that waits for another is blocked, and the summary, the step and the status follow.
pub mod Session
pub mod Summary
use Prim.Native.String.{◌++◌}
use ocpi_mock_hub.Prelude.{
  ℕ, ◌+◌, ◌*◌, ◌/◌, String, Option, none, some, List, [], ◌∷◌, Bool, ◌||◌, ◌&&◌, ◌==ₛ◌, ◌==◌,
  if◌then◌else◌, or_else, map, length, Dict, lookup, put,
}
use ocpi_mock_hub.Correctness.Types.{
  SuiteDefinition, CaseDefinition, ActionDefinition, TestSession, SessionSummary, ActionState,
  CaseResult, CheckpointState, CaseEvaluation, SessionRuntime, Evaluators, no_summary, no_case,
}
use ocpi_mock_hub.Correctness.NextStep.{next_step, tail_events}

unfoldable pub dependency_blocks_progress : String → Bool
dependency_blocks_progress status =
    (status ==ₛ "pending") || (status ==ₛ "manual") || (status ==ₛ "blocked")

-- what one required case says: "" where it does not block
unfoldable pub blocked_by : String → Option CaseResult → String
unfolding dependency_blocks_progress
blocked_by dep none = dep
blocked_by dep (some r) =
    if dependency_blocks_progress r.status then (if r.title ==ₛ "" then dep else r.title) else ""

-- whether the loop over the required cases returns at this one
unfoldable pub is_blocking : Option CaseResult → Bool
unfolding dependency_blocks_progress
is_blocking none = Bool.true
is_blocking (some r) = dependency_blocks_progress r.status

unfoldable pub blocking_requirement : Dict CaseResult → List String → String
unfolding is_blocking blocked_by
blocking_requirement cases [] = ""
blocking_requirement cases (dep ∷ deps) =
    let rest = blocking_requirement cases deps in
    if is_blocking (lookup dep cases) then blocked_by dep (lookup dep cases) else rest

-- the result that the loop starts from where the case has none
unfoldable pub empty_result : CaseDefinition → CaseResult
empty_result def = record no_case {
  id = def.id;
  group = def.group;
  title = def.title;
  description = def.description;
}

-- the call of the evaluator, or the failure without one
unfoldable pub evaluation : Evaluators → SessionRuntime → CaseDefinition → CaseEvaluation
evaluation evaluators rt def = elim (evaluators def.evaluator) [
  | none ↦ record {
    status = "failed";
    messages = ("No evaluator registered for " ++ def.evaluator ++ ".") ∷ [];
    evidence_event_ids = [];
  }
  | some evaluator ↦ evaluator rt def
]

unfoldable pub mark_answered : CheckpointState → CheckpointState
mark_answered cp = if cp.answer ==ₛ "" then cp else record cp { status = "answered" }

unfoldable pub blocked_result : String → String → CaseResult → CaseResult
blocked_result now by result = record result {
  status = "blocked";
  messages = ("Waiting for " ++ by ++ " to pass first.") ∷ [];
  evidence_event_ids = [];
  updated_at = now;
}

unfoldable pub evaluated_result : String → CaseEvaluation → CaseResult → CaseResult
unfolding mark_answered
evaluated_result now eval result = record result {
  status = eval.status;
  messages = eval.messages;
  evidence_event_ids = eval.evidence_event_ids;
  updated_at = now;
  checkpoints =
      if eval.status ==ₛ "passed" then map mark_answered result.checkpoints else result.checkpoints;
}

-- the body of the loop over the suite's cases
unfoldable pub rebuilt_case : Evaluators → String → SessionRuntime → CaseDefinition → CaseResult
unfolding blocking_requirement empty_result blocked_result evaluated_result evaluation
rebuilt_case evaluators now rt def =
    let result = or_else (lookup def.id rt.cases) (empty_result def) in
    let by = blocking_requirement rt.cases def.requires in
    if by ==ₛ ""
    then evaluated_result now (evaluation evaluators rt def) result
    else blocked_result now by result

-- The evaluator of a case sees the session with the case in it, as the loop has stored it.
unfoldable pub entered : SessionRuntime → CaseDefinition → SessionRuntime
unfolding empty_result
entered rt def = record rt {
  cases = put def.id (or_else (lookup def.id rt.cases) (empty_result def)) rt.cases;
}

-- the loop: the session with its cases renewed, and caseResults
unfoldable pub rebuild_cases :
    Evaluators → String → List CaseDefinition → SessionRuntime → SessionRuntime × List CaseResult
unfolding rebuilt_case
rebuild_cases evaluators now [] rt = (rt, [])
rebuild_cases evaluators now (def ∷ defs) rt =
    let result = rebuilt_case evaluators now (entered rt def) def in
    let rest =
      rebuild_cases evaluators now defs (record rt { cases = put def.id result rt.cases }) in
    (rest.0, result ∷ rest.1)

-- the switch that counts a case
unfoldable pub count_case : SessionSummary → String → SessionSummary
count_case s status =
    if status ==ₛ "passed"
    then record s { passed_cases = s.passed_cases + 1 }
    else if status ==ₛ "failed"
    then record s { failed_cases = s.failed_cases + 1 }
    else if status ==ₛ "manual"
    then record s { manual_cases = s.manual_cases + 1 }
    else if status ==ₛ "blocked"
    then record s { blocked_cases = s.blocked_cases + 1 }
    else record s { pending_cases = s.pending_cases + 1 }

unfoldable pub count_cases : List CaseResult → SessionSummary → SessionSummary
count_cases [] s = s
count_cases (c ∷ cs) s = count_cases cs (count_case s c.status)

unfoldable pub completion_rate : SessionSummary → ℕ
completion_rate s =
    if s.total_cases == 0 then 0 else (s.passed_cases + s.failed_cases) * 100 / s.total_cases

unfoldable pub summarize : List CaseDefinition → List CaseResult → SessionSummary
unfolding count_cases completion_rate
summarize defs results =
    let s = count_cases results (record no_summary { total_cases = length defs }) in
    record s { completion_rate = completion_rate s }

-- actionStates
unfoldable pub listed_actions : Dict ActionState → List ActionDefinition → List ActionState
listed_actions actions [] = []
listed_actions actions (def ∷ defs) =
    let rest = listed_actions actions defs in
    elim (lookup def.id actions) [ none ↦ rest | some a ↦ a ∷ rest ]

unfoldable pub is_finished : SessionSummary → Bool
is_finished s = (s.pending_cases == 0) && (s.manual_cases == 0) && (s.blocked_cases == 0)

-- the last block: the status and the time of completion
unfoldable pub closed : String → TestSession → TestSession
unfolding is_finished
closed now s = record s {
  status = if is_finished s.summary then "completed" else "running";
  completed_at =
      if is_finished s.summary then (if s.completed_at ==ₛ "" then now else s.completed_at) else "";
}

-- the members that nextStep reads, set before it is called
unfoldable pub filled : SessionRuntime → List CaseResult → TestSession
unfolding summarize listed_actions
filled rt results = record rt.session {
  cases = results;
  actions = listed_actions rt.actions rt.suite.actions;
  summary = summarize rt.suite.cases results;
  event_count = length rt.events;
  recent_events = tail_events rt.events 20;
}

unfoldable pub stepped : String → SuiteDefinition → TestSession → TestSession
stepped now suite s = record s { current_step = next_step suite s; updated_at = now }

unfoldable pub rebuild_session : Evaluators → String → SessionRuntime → SessionRuntime
unfolding rebuild_cases filled stepped closed
rebuild_session evaluators now rt =
    let looped = rebuild_cases evaluators now rt.suite.cases rt in
    record looped.0 { session = closed now (stepped now rt.suite (filled looped.0 looped.1)) }
