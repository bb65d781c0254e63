-- ===== src/Correctness/Manager.antt =====
-- The operations of the Manager (correctness/manager.go): the functions that withStateMutationLocked
-- runs, on the manager that was loaded. The UUID is an argument, and so are the times of the
-- operation (`at`) and of the rebuild (`now`); an operation that fails gives no manager. What
-- DeleteSession does after it is in Overlay/Scoped.
pub mod Invariant
pub mod Reachable
pub mod Start
pub mod Induction
pub mod Anchored
use Prim.Native.String.{◌++◌}
use ocpi_mock_hub.Prelude.{
  ℕ, String, Option, none, some, List, [], ◌∷◌, Bool, true, false, ◌||◌, ◌&&◌, ◌==ₛ◌, not,
  if◌then◌else◌, map, any, length, filter, Dict, lookup, put, without, has, ◌++◌ as ◌++ₗ◌,
}
use ocpi_mock_hub.Seed.{Seed}
use ocpi_mock_hub.Correctness.Types.{
  SuiteDefinition, CaseDefinition, ActionDefinition, CheckpointDefinition, SessionConfig,
  SessionPeerState, TestSession, SessionStep, ActionState, CaseResult, CheckpointState,
  SessionSnapshot, TrafficEvent, SessionRuntime, Evaluators, Manager, Failure, Result, ok, err,
  ◌>>=◌, or_fail, active_session_exists, session_not_found, unknown_suite, unknown_action,
  unknown_checkpoint, already_running, finish_first, run_first, not_ready, no_action, no_case,
  no_step, no_summary, no_peer,
}
use ocpi_mock_hub.Correctness.Rebuild.{rebuild_session, is_finished}

unfoldable pub idle_action : ActionDefinition → ActionState
idle_action def = record no_action {
  id = def.id;
  group = def.group;
  title = def.title;
  description = def.description;
  kind = def.kind;
  status = "idle";
}

unfoldable pub pending_checkpoint : CheckpointDefinition → CheckpointState
pending_checkpoint def = record {
  id = def.id;
  prompt = def.prompt;
  placeholder = def.placeholder;
  answer = "";
  notes = "";
  status = "pending";
  updated_at = "";
}

unfoldable pub pending_case : CaseDefinition → CaseResult
unfolding pending_checkpoint
pending_case def = record no_case {
  id = def.id;
  group = def.group;
  title = def.title;
  description = def.description;
  status = "pending";
  checkpoints = map pending_checkpoint def.checkpoints;
}

unfoldable pub idle_actions : List ActionDefinition → Dict ActionState → Dict ActionState
unfolding idle_action
idle_actions [] m = m
idle_actions (def ∷ defs) m = idle_actions defs (put def.id (idle_action def) m)

unfoldable pub pending_cases : List CaseDefinition → Dict CaseResult → Dict CaseResult
unfolding pending_case
pending_cases [] m = m
pending_cases (def ∷ defs) m = pending_cases defs (put def.id (pending_case def) m)

unfoldable pub new_test_session : String → String → SuiteDefinition → SessionConfig → TestSession
new_test_session id now suite cfg = record {
  id = id;
  suite_id = suite.id;
  suite_name = suite.name;
  status = "running";
  created_at = now;
  updated_at = now;
  completed_at = "";
  config = record cfg { suite_id = suite.id };
  peer = no_peer;
  summary = no_summary;
  current_step = no_step;
  actions = [];
  cases = [];
  deferred = suite.deferred;
  event_count = 0;
  recent_events = [];
}

unfoldable pub new_runtime :
    String → String → SuiteDefinition → Seed → SessionConfig → SessionRuntime
unfolding idle_actions pending_cases new_test_session
new_runtime id now suite seed cfg = record {
  suite = suite;
  session = new_test_session id now suite cfg;
  seed = seed;
  actions = idle_actions suite.actions [];
  cases = pending_cases suite.cases [];
  events = [];
}

-- DefaultSuiteID of correctness/definitions.go, where the configuration names none
unfoldable pub chosen_suite : SessionConfig → String
chosen_suite cfg = if cfg.suite_id ==ₛ "" then "ocpi-2-2-1-emsp-correctness" else cfg.suite_id

-- the checkpoints of one case that an action resets, and those that an answer reaches
unfoldable pub reset_checkpoint : CheckpointState → CheckpointState
reset_checkpoint cp = record cp { answer = ""; notes = ""; status = "pending"; updated_at = "" }

unfoldable pub reset_case : CaseResult → CaseResult
unfolding reset_checkpoint
reset_case r = record r { checkpoints = map reset_checkpoint r.checkpoints }

unfoldable pub reset_in : String → Option CaseResult → Dict CaseResult → Dict CaseResult
unfolding reset_case
reset_in id none cases = cases
reset_in id (some r) cases = put id (reset_case r) cases

unfoldable pub reset_cases : String → List CaseDefinition → Dict CaseResult → Dict CaseResult
unfolding reset_in has
reset_cases action [] cases = cases
reset_cases action (def ∷ defs) cases =
    reset_cases action defs
      (if has action def.action_ids then reset_in def.id (lookup def.id cases) cases else cases)

unfoldable pub reset_checkpoints_for_action : SessionRuntime → String → SessionRuntime
unfolding reset_cases
reset_checkpoints_for_action rt action = record rt {
  cases = reset_cases action rt.suite.cases rt.cases;
}

unfoldable pub answer_checkpoint :
    String → String → String → String → CheckpointState → CheckpointState
answer_checkpoint at id answer notes cp =
    if cp.id ==ₛ id
    then record cp {
      answer = answer;
      notes = notes;
      status = if answer ==ₛ "" then "pending" else "answered";
      updated_at = at;
    }
    else cp

unfoldable pub answer_cases : String → String → String → String → Dict CaseResult → Dict CaseResult
unfolding answer_checkpoint
answer_cases at id answer notes [] = []
answer_cases at id answer notes ((key, r) ∷ cases) =
    (key, record r { checkpoints = map (answer_checkpoint at id answer notes) r.checkpoints })
    ∷ answer_cases at id answer notes cases

unfoldable pub has_checkpoint : String → Dict CaseResult → Bool
has_checkpoint id [] = false
has_checkpoint id ((key, r) ∷ cases) =
    any (λ cp. cp.id ==ₛ id) r.checkpoints || has_checkpoint id cases

-- the refusals of MarkActionStarted for an idle action that is not the current step
unfoldable pub not_current : SessionStep → String → Failure
not_current step action =
    if (step.action_id ==ₛ "") && not (step.title ==ₛ "")
    then finish_first step.title
    else if not (step.action_id ==ₛ "")
    then run_first step.title
    else not_ready action

unfoldable pub check_startable : SessionStep → String → ActionState → Result ActionState
unfolding not_current
check_startable step action a =
    if a.status ==ₛ "running"
    then err (already_running action)
    else if (a.status ==ₛ "idle") && not (step.action_id ==ₛ action)
    then err (not_current step action)
    else ok a

unfoldable pub delete_session : String → Manager → Result Manager
delete_session id m = do
  rt ← or_fail (lookup id m.sessions) session_not_found
  ok (record m {
    sessions = without id m.sessions;
    order = filter (λ k. not (k ==ₛ id)) m.order;
    active_id = if m.active_id ==ₛ id then "" else m.active_id;
  })

-- the event as it is recorded
unfoldable pub stamped_event : String → String → TrafficEvent → TrafficEvent
stamped_event uuid session event = record event {
  session_id = session;
  id = if event.id ==ₛ "" then "evt-" ++ uuid else event.id;
}

unfoldable pub started_action : String → SessionRuntime → ActionState → ActionState
started_action at rt a = record a {
  status = "running";
  last_run_at = at;
  last_error = "";
  event_anchor = length rt.events;
}

unfoldable pub started : String → String → ActionState → SessionRuntime → SessionRuntime
unfolding started_action reset_checkpoints_for_action
started at action a rt =
    reset_checkpoints_for_action
      (record rt { actions = put action (started_action at rt a) rt.actions }) action

module _ (evaluators : Evaluators) where
  -- m.rebuildSessionLocked(rt), with the session written back under its key
  unfoldable pub rebuild_in : String → String → SessionRuntime → Manager → Manager
  unfolding is_finished
  rebuild_in now key rt m =
      let rt' = rebuild_session evaluators now rt in
      record m {
        sessions = put key rt' m.sessions;
        active_id =
            if is_finished rt'.session.summary && (m.active_id ==ₛ rt'.session.id)
            then ""
            else m.active_id;
      }

  -- what an operation that returns a copy of the session gives
  abbrev Outcome : Type 0
  Outcome = Result (Manager × TestSession)

  unfoldable pub rebuilt_session : String → SessionRuntime → TestSession
  rebuilt_session now rt = (rebuild_session evaluators now rt).session

  unfoldable pub with_rebuilt : String → String → SessionRuntime → Manager → Outcome
  unfolding rebuild_in rebuilt_session
  with_rebuilt now key rt m = ok (rebuild_in now key rt m, rebuilt_session now rt)

  unfoldable pub new_session_locked : String → String → String → SessionConfig → Manager → Outcome
  unfolding chosen_suite new_runtime with_rebuilt
  new_session_locked uuid at now cfg m = do
    suite ← or_fail (lookup (chosen_suite cfg) m.suites) unknown_suite
    let id = "CTS-" ++ uuid
    let rt = new_runtime id at suite m.base_seed cfg
    with_rebuilt now id rt (record m { order = m.order ++ₗ (id ∷ []); active_id = id })

  unfoldable pub start_session : String → String → String → SessionConfig → Manager → Outcome
  unfolding new_session_locked
  start_session uuid at now cfg m =
      if not (m.active_id ==ₛ "")
      then err active_session_exists
      else new_session_locked uuid at now cfg m

  unfoldable pub rerun_session : String → String → String → String → Manager → Outcome
  unfolding new_session_locked
  rerun_session uuid at now id m = do
    rt ← or_fail (lookup id m.sessions) session_not_found
    if not (m.active_id ==ₛ "")
        then err active_session_exists
        else new_session_locked uuid at now rt.session.config m

  unfoldable pub record_traffic_event : String → String → TrafficEvent → Manager → Manager
  unfolding stamped_event rebuild_in
  record_traffic_event uuid now event m =
      if m.active_id ==ₛ "" then m else elim (lookup m.active_id m.sessions) [
        | none ↦ m
        | some rt ↦
            rebuild_in now m.active_id
              (record rt { events = rt.events ++ₗ (stamped_event uuid rt.session.id event ∷ []) }) m
      ]

  unfoldable pub mark_action_started : String → String → String → String → Manager → Result Manager
  unfolding check_startable started rebuild_in
  mark_action_started at now id action m =
      if not (m.active_id ==ₛ "") && not (m.active_id ==ₛ id) then err active_session_exists else do
        rt ← or_fail (lookup id m.sessions) session_not_found
        found ← or_fail (lookup action rt.actions) unknown_action
        a ← check_startable rt.session.current_step action found
        ok (rebuild_in now id (started at action a rt) (record m { active_id = id }))

  -- the lookups that CompleteAction and FailAction share, and what they do with the new state
  unfoldable pub with_action :
      String → String → String → (ActionState → ActionState) → Manager → Outcome
  unfolding with_rebuilt
  with_action now id action change m = do
    rt ← or_fail (lookup id m.sessions) session_not_found
    a ← or_fail (lookup action rt.actions) unknown_action
    with_rebuilt now id (record rt { actions = put action (change a) rt.actions }) m

  unfoldable pub complete_action :
      String → String → String → String → Dict String → Manager → Outcome
  unfolding with_action
  complete_action at now id action output =
      with_action now id action
        (λ a. record a { status = "completed"; last_run_at = at; last_error = ""; output = output })

  unfoldable pub fail_action : String → String → String → String → String → Manager → Outcome
  unfolding with_action
  fail_action at now id action error =
      with_action now id action
        (λ a. record a { status = "failed"; last_run_at = at; last_error = error })

  unfoldable pub set_peer_state : String → String → SessionPeerState → Manager → Result Manager
  unfolding rebuild_in
  set_peer_state now id peer m = do
    rt ← or_fail (lookup id m.sessions) session_not_found
    ok (rebuild_in now id (record rt { session = record rt.session { peer = peer } }) m)

  unfoldable pub submit_checkpoint :
      String → String → String → String → String → String → Manager → Outcome
  unfolding answer_cases has_checkpoint with_rebuilt
  submit_checkpoint at now id checkpoint answer notes m = do
    rt ← or_fail (lookup id m.sessions) session_not_found
    if has_checkpoint checkpoint rt.cases
        then with_rebuilt now id
            (record rt { cases = answer_cases at checkpoint answer notes rt.cases }) m
        else err unknown_checkpoint

  -- UpdateSandbox, whose function changes the seed or fails
  unfoldable pub update_sandbox : String → String → (Seed → Result Seed) → Manager → Result Manager
  unfolding rebuild_in
  update_sandbox now id change m = do
    rt ← or_fail (lookup id m.sessions) session_not_found
    seed ← change rt.seed
    ok (rebuild_in now id (record rt { seed = seed }) m)

-- ActionState
unfoldable pub action_state : String → String → Manager → Result ActionState
action_state id action m = do
  rt ← or_fail (lookup id m.sessions) session_not_found
  or_fail (lookup action rt.actions) unknown_action

-- GetSession
unfoldable pub get_session : String → Manager → Result TestSession
get_session id m = do rt ← or_fail (lookup id m.sessions) session_not_found; ok rt.session

unfoldable pub snapshot : TestSession → SessionSnapshot
snapshot s = record {
  id = s.id;
  suite_id = s.suite_id;
  suite_name = s.suite_name;
  status = s.status;
  created_at = s.created_at;
  updated_at = s.updated_at;
  completed_at = s.completed_at;
  summary = s.summary;
  current_step = s.current_step;
}

-- ListSessions: the order from its end, since each entry goes behind those that follow it
unfoldable pub snapshots : Dict SessionRuntime → List String → List SessionSnapshot
unfolding snapshot
snapshots sessions [] = []
snapshots sessions (id ∷ ids) =
    let rest = snapshots sessions ids in
    elim (lookup id sessions) [ none ↦ rest | some rt ↦ rest ++ₗ (snapshot rt.session ∷ []) ]

unfoldable pub list_sessions : Manager → List SessionSnapshot
unfolding snapshots
list_sessions m = snapshots m.sessions m.order

-- CurrentSeed
unfoldable pub current_seed : Seed → Manager → Seed
current_seed base m =
    if m.active_id ==ₛ ""
    then base
    else elim (lookup m.active_id m.sessions) [ none ↦ base | some rt ↦ rt.seed ]
