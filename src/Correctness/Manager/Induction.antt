-- ===== src/Correctness/Manager/Induction.antt =====
-- The rule for invariants of the sessions that the operations of the Manager reach
-- (correctness/manager.go).
use Prim.Native.String.{◌++◌}
use ocpi_mock_hub.Prelude.{
  String, ◌≡◌, refl, sym, ap, ◌∙◌, inl, inr, some, [], ◌∷◌, ◌++◌ as ◌++ₗ◌, ◌&&◌, not, ◌==ₛ◌, Dict,
  lookup, put, Option-cases, if_cases,
}
use ocpi_mock_hub.Seed.{Seed}
use ocpi_mock_hub.Correctness.Types.{
  SuiteDefinition, SessionConfig, TrafficEvent, ActionState, SessionStep, TestSession,
  SessionPeerState, SessionRuntime, Evaluators, Manager, Result, ok, bind_lookup, bind_result,
}
use ocpi_mock_hub.Correctness.Rebuild.{rebuild_session}
use ocpi_mock_hub.Correctness.Manager.{
  start_session, rerun_session, delete_session, record_traffic_event, mark_action_started,
  complete_action, fail_action, set_peer_state, submit_checkpoint, update_sandbox,
  new_session_locked, with_rebuilt, with_action, rebuild_in, new_runtime, started, has_checkpoint,
  check_startable, chosen_suite, stamped_event, answer_cases,
}
use ocpi_mock_hub.Correctness.Manager.Reachable.{
  Op, start, rerun, delete, traffic, mark_started, complete, fail, set_peer, submit, update,
  apply_op, after, forget, IsReachable, created, stepped,
}
use ocpi_mock_hub.Correctness.Persist.RoundTrip.{Every, end, Every-put, Every-without, Every-lookup}

-- What makes a property P of the stored sessions an invariant: a rebuild gives it from a property In,
-- which it implies, which new sessions of the suites have, and which each change to a session keeps.
pub record IsInductive (ev : Evaluators) (suites : Dict SuiteDefinition)
    (In P : SessionRuntime → Type 0) : Type 0 where
  pub rebuilt : (now : String) (rt : SessionRuntime) → In rt → P (rebuild_session ev now rt)
  pub kept : (rt : SessionRuntime) → P rt → In rt
  pub fresh :
      (key id at : String) (suite : SuiteDefinition) (seed : Seed) (cfg : SessionConfig)
      → lookup key suites ≡ some suite
      → In (new_runtime id at suite seed cfg)
  pub grown :
      (rt : SessionRuntime) (event : TrafficEvent)
      → In rt
      → In (record rt { events = rt.events ++ₗ (event ∷ []) })
  pub begun :
      (at action : String) (rt : SessionRuntime) (a : ActionState)
      → lookup action rt.actions ≡ some a
      → In rt
      → In (started at action a rt)
  pub changed :
      (action : String) (rt : SessionRuntime) (a b : ActionState)
      → lookup action rt.actions ≡ some a
      → b.id ≡ a.id
      → b.event_anchor ≡ a.event_anchor
      → In rt
      → In (record rt { actions = put action b rt.actions })
  pub peered :
      (rt : SessionRuntime) (peer : SessionPeerState)
      → In rt
      → In (record rt { session = record rt.session { peer = peer } })
  pub answered :
      (at id answer notes : String) (rt : SessionRuntime)
      → In rt
      → In (record rt { cases = answer_cases at id answer notes rt.cases })
  pub seeded : (rt : SessionRuntime) (seed : Seed) → In rt → In (record rt { seed = seed })

-- what the guards of a start let through is the action itself
check_startable-same :
    (step : SessionStep) (action : String) (a b : ActionState)
    → check_startable step action a ≡ ok b
    → a ≡ b
unfolding check_startable
check_startable-same step action a b =
    if_cases {A = Result ActionState} (λ r. r ≡ ok b → a ≡ b) (a.status ==ₛ "running")
      (λ e h. absurd (cc (h)))
      (λ e.
        if_cases {A = Result ActionState} (λ r. r ≡ ok b → a ≡ b)
          ((a.status ==ₛ "idle") && not (step.action_id ==ₛ action)) (λ e' h. absurd (cc (h)))
          (λ e' h. cc (h)))

module _ {ev : Evaluators} {suites : Dict SuiteDefinition} {In P : SessionRuntime → Type 0}
    (rules : IsInductive ev suites In P) {base : Seed} (m : Manager)
    (h : (m.base_seed ≡ base) × (m.suites ≡ suites) × Every P m.sessions) where
  AreFine : Manager → Type 0
  AreFine m' = (m'.base_seed ≡ base) × (m'.suites ≡ suites) × Every P m'.sessions

  IsFine : Result Manager → Type 0
  IsFine r = AreFine (after m r)

  IsFinePair : Result (Manager × TestSession) → Type 0
  IsFinePair r = AreFine (after m (forget r))

  rebuilt-AreFine :
      (now key : String) (rt : SessionRuntime)
      → In rt
      → Every P (put key (rebuild_session ev now rt) m.sessions)
  rebuilt-AreFine now key rt p =
      Every-put P key (rebuild_session ev now rt) m.sessions (rules.rebuilt now rt p) h.2

  found-In : (id : String) (rt : SessionRuntime) → lookup id m.sessions ≡ some rt → In rt
  found-In id rt found = rules.kept rt (Every-lookup P id m.sessions rt h.2 found)

  new_session_locked-AreFine :
      (uuid at now : String) (cfg : SessionConfig)
      → IsFinePair (new_session_locked ev uuid at now cfg m)
  unfolding IsFinePair AreFine new_session_locked with_rebuilt rebuild_in new_runtime lookup
  new_session_locked-AreFine uuid at now cfg =
      bind_lookup IsFinePair (lookup (chosen_suite cfg) m.suites) _ h λ suite found. (
        h.0,
        h.1,
        rebuilt-AreFine now ("CTS-" ++ uuid) (new_runtime ("CTS-" ++ uuid) at suite m.base_seed cfg)
            (rules.fresh (chosen_suite cfg) ("CTS-" ++ uuid) at suite m.base_seed cfg
              (sym (ap (λ u. lookup (chosen_suite cfg) u) h.1) ∙ found)),
      )

  start_session-AreFine :
      (uuid at now : String) (cfg : SessionConfig) → IsFinePair (start_session ev uuid at now cfg m)
  unfolding IsFinePair AreFine start_session
  start_session-AreFine uuid at now cfg =
      if_cases IsFinePair (not (m.active_id ==ₛ "")) (λ e. h)
        (λ e. new_session_locked-AreFine uuid at now cfg)

  rerun_session-AreFine : (uuid at now id : String) → IsFinePair (rerun_session ev uuid at now id m)
  unfolding IsFinePair AreFine rerun_session
  rerun_session-AreFine uuid at now id =
      bind_lookup IsFinePair (lookup id m.sessions) _ h λ rt found.
        if_cases IsFinePair (not (m.active_id ==ₛ "")) (λ e. h)
          (λ e. new_session_locked-AreFine uuid at now rt.session.config)

  delete_session-AreFine : (id : String) → IsFine (delete_session id m)
  unfolding IsFine AreFine delete_session
  delete_session-AreFine id =
      bind_lookup IsFine (lookup id m.sessions) _ h
        λ rt found. (h.0, h.1, Every-without P id m.sessions h.2)

  record_traffic_event-AreFine :
      (uuid now : String) (event : TrafficEvent)
      → AreFine (record_traffic_event ev uuid now event m)
  unfolding AreFine record_traffic_event rebuild_in
  record_traffic_event-AreFine uuid now event =
      if_cases AreFine (m.active_id ==ₛ "") (λ e. h)
        λ e. elim (Option-cases (lookup m.active_id m.sessions)) [
          | inl found ↦ rw (record_traffic_event, found) h
          | inr (rt, found) ↦
              rw (record_traffic_event, found)
                (
                  h.0,
                  h.1,
                  rebuilt-AreFine now m.active_id _ (
                      rules.grown rt (stamped_event uuid rt.session.id event)
                        (found-In m.active_id rt found)),
                )
        ]

  mark_action_started-AreFine :
      (at now id action : String) → IsFine (mark_action_started ev at now id action m)
  unfolding IsFine AreFine mark_action_started rebuild_in
  mark_action_started-AreFine at now id action =
      if_cases IsFine (not (m.active_id ==ₛ "") && not (m.active_id ==ₛ id)) (λ e. h)
        λ e. bind_lookup IsFine (lookup id m.sessions) _ h λ rt found.
          bind_lookup IsFine (lookup action rt.actions) _ h λ a known.
            bind_result IsFine (check_startable rt.session.current_step action a) (λ e'. h)
              λ b ready. (
                h.0,
                h.1,
                rebuilt-AreFine now id (started at action b rt) (
                    rules.begun at action rt b
                      (known
                        ∙ ap some (check_startable-same rt.session.current_step action a b ready))
                      (found-In id rt found)),
              )

  with_action-AreFine :
      (now id action : String) (change : ActionState → ActionState)
      → ((a : ActionState) → (change a).id ≡ a.id)
      → ((a : ActionState) → (change a).event_anchor ≡ a.event_anchor)
      → IsFinePair (with_action ev now id action change m)
  unfolding IsFinePair AreFine with_action with_rebuilt rebuild_in
  with_action-AreFine now id action change named anchored =
      bind_lookup IsFinePair (lookup id m.sessions) _ h λ rt found.
        bind_lookup IsFinePair (lookup action rt.actions) _ h λ a known. (
          h.0,
          h.1,
          rebuilt-AreFine now id _ (
              rules.changed action rt a (change a) known (named a) (anchored a)
                (found-In id rt found)),
        )

pub apply_op-AreFine :
    {ev : Evaluators} {suites : Dict SuiteDefinition} {In P : SessionRuntime → Type 0}
    → IsInductive ev suites In P
    → {base : Seed} (op : Op) (m : Manager)
    → (m.base_seed ≡ base) × (m.suites ≡ suites) × Every P m.sessions
    → ((after m (apply_op ev op m)).base_seed ≡ base)
      × ((after m (apply_op ev op m)).suites ≡ suites)
      × Every P (after m (apply_op ev op m)).sessions
unfolding apply_op IsFine IsFinePair AreFine complete_action fail_action set_peer_state
    submit_checkpoint update_sandbox with_rebuilt rebuild_in
apply_op-AreFine rules (start uuid at now cfg) m h = start_session-AreFine rules m h uuid at now cfg
apply_op-AreFine rules (rerun uuid at now id) m h = rerun_session-AreFine rules m h uuid at now id
apply_op-AreFine rules (delete id) m h = delete_session-AreFine rules m h id
apply_op-AreFine rules (traffic uuid now event) m h =
    record_traffic_event-AreFine rules m h uuid now event
apply_op-AreFine rules (mark_started at now id action) m h =
    mark_action_started-AreFine rules m h at now id action
apply_op-AreFine rules (complete at now id action output) m h =
    with_action-AreFine rules m h now id action _ (λ a. refl) (λ a. refl)
apply_op-AreFine rules (fail at now id action error) m h =
    with_action-AreFine rules m h now id action _ (λ a. refl) (λ a. refl)
apply_op-AreFine rules (set_peer now id peer) m h =
    bind_lookup (IsFine rules m h) (lookup id m.sessions) _ h λ rt found. (
      h.0,
      h.1,
      rebuilt-AreFine rules m h now id _ (rules.peered rt peer (found-In rules m h id rt found)),
    )
apply_op-AreFine rules (submit at now id checkpoint answer notes) m h =
    bind_lookup (IsFinePair rules m h) (lookup id m.sessions) _ h λ rt found.
      if_cases (IsFinePair rules m h) (has_checkpoint checkpoint rt.cases)
        (λ e. (
          h.0,
          h.1,
          rebuilt-AreFine rules m h now id _
              (rules.answered at checkpoint answer notes rt (found-In rules m h id rt found)),
        ))
        (λ e. h)
apply_op-AreFine rules (update now id change) m h =
    bind_lookup (IsFine rules m h) (lookup id m.sessions) _ h λ rt found.
      bind_result (IsFine rules m h) (change rt.seed) (λ e. h)
        λ seed changed. (
          h.0,
          h.1,
          rebuilt-AreFine rules m h now id _
              (rules.seeded rt seed (found-In rules m h id rt found)),
        )

pub reachable-Every :
    {ev : Evaluators} {suites : Dict SuiteDefinition} {In P : SessionRuntime → Type 0}
    → IsInductive ev suites In P
    → (seed : Seed) (m : Manager) → IsReachable ev seed suites m
    → (m.base_seed ≡ seed) × (m.suites ≡ suites) × Every P m.sessions
reachable-Every rules seed m created = (refl, refl, end)
reachable-Every rules seed m (stepped {m = m0} op r f) =
    apply_op-AreFine rules op m0 (reachable-Every rules seed m0 r)
