-- ===== src/Correctness/Manager/Reachable.antt =====
-- The managers that the operations reach from a new one, whatever their order and outcome.
use Prim.Native.String.{◌++◌}
use ocpi_mock_hub.Prelude.{
  String, ◌≡◌, refl, sym, ap, ◌∙◌, inl, inr, none, [], ◌∷◌, Bool, true, ◌&&◌, not, ◌==ₛ◌, Dict,
  lookup, is_some, Option-cases, Bool-cases, if_cases, lookup-without, eq_iff, eq_refl, arith,
  ◌++◌ as ◌++ₗ◌,
}
use ocpi_mock_hub.Seed.{Seed}
use ocpi_mock_hub.Correctness.Types.{
  SuiteDefinition, SessionConfig, SessionPeerState, TestSession, TrafficEvent, ActionState,
  Evaluators, Manager, Result, ok, err, ◌>>=◌, bind_lookup, bind_result,
}
use ocpi_mock_hub.Correctness.Manager.{
  start_session, rerun_session, delete_session, record_traffic_event, mark_action_started,
  complete_action, fail_action, set_peer_state, submit_checkpoint, update_sandbox,
  new_session_locked, with_rebuilt, with_action, new_runtime, started, has_checkpoint,
  check_startable, reset_checkpoints_for_action, chosen_suite, new_test_session,
}
use ocpi_mock_hub.Correctness.Manager.Invariant.{
  IsConsistent, IsPrepared, kept, kept-id, count-append, count-filter, rebuild_in-IsConsistent,
  rebuild_stored,
}

-- one call of an exported method that changes the state
pub data Op : Type 0 where
  start : String → String → String → SessionConfig → Op
  rerun : String → String → String → String → Op
  delete : String → Op
  traffic : String → String → TrafficEvent → Op
  mark_started : String → String → String → String → Op
  complete : String → String → String → String → Dict String → Op
  fail : String → String → String → String → String → Op
  set_peer : String → String → SessionPeerState → Op
  submit : String → String → String → String → String → String → Op
  update : String → String → (Seed → Result Seed) → Op

abbrev pub forget {ℓ} : {A : Type ℓ} → Result (Manager × A) → Result Manager
forget r = r >>= λ p. ok p.0

unfoldable pub apply_op : Evaluators → Op → Manager → Result Manager
unfolding start_session rerun_session delete_session record_traffic_event mark_action_started
    complete_action fail_action set_peer_state submit_checkpoint update_sandbox
apply_op ev (start uuid at now cfg) m = forget (start_session ev uuid at now cfg m)
apply_op ev (rerun uuid at now id) m = forget (rerun_session ev uuid at now id m)
apply_op ev (delete id) m = delete_session id m
apply_op ev (traffic uuid now event) m = ok (record_traffic_event ev uuid now event m)
apply_op ev (mark_started at now id action) m = mark_action_started ev at now id action m
apply_op ev (complete at now id action output) m =
    forget (complete_action ev at now id action output m)
apply_op ev (fail at now id action error) m = forget (fail_action ev at now id action error m)
apply_op ev (set_peer now id peer) m = set_peer_state ev now id peer m
apply_op ev (submit at now id checkpoint answer notes) m =
    forget (submit_checkpoint ev at now id checkpoint answer notes m)
apply_op ev (update now id change) m = update_sandbox ev now id change m

-- an operation that fails leaves the state as it was
abbrev pub after : Manager → Result Manager → Manager
after m (ok m') = m'
after m (err e) = m

-- the identifier that an operation makes is not in use
unfoldable pub is_fresh : Op → Manager → Bool
is_fresh (start uuid at now cfg) m = not (is_some (lookup ("CTS-" ++ uuid) m.sessions))
is_fresh (rerun uuid at now id) m = not (is_some (lookup ("CTS-" ++ uuid) m.sessions))
is_fresh _ m = true

abbrev pub new_manager : Seed → Dict SuiteDefinition → Manager
new_manager seed suites = record {
  base_seed = seed;
  suites = suites;
  sessions = [];
  order = [];
  active_id = "";
}

pub data IsReachable (ev : Evaluators) (seed : Seed) (suites : Dict SuiteDefinition)
    : Manager → Type 0 where
  created : IsReachable ev seed suites (new_manager seed suites)
  stepped :
      {m : Manager} (op : Op)
      → IsReachable ev seed suites m
      → is_fresh op m ≡ true
      → IsReachable ev seed suites (after m (apply_op ev op m))

module _ (ev : Evaluators) (m : Manager) (h : IsConsistent m) where
  -- what an operation, with or without a session, leaves is consistent
  IsFine : Result Manager → Type 0
  IsFine r = IsConsistent (after m r)

  IsFinePair : Result (Manager × TestSession) → Type 0
  IsFinePair r = IsConsistent (after m (forget r))

  appended-IsPrepared :
      (id : String)
      → lookup id m.sessions ≡ none
      → IsPrepared id (record m { order = m.order ++ₗ (id ∷ []); active_id = id })
  appended-IsPrepared id e = (
    λ k. rw (count-append k m.order (id ∷ [])) (ground (arith, h.0 k, e, eq_iff id k)),
    h.1,
    ground (arith, eq_refl id),
  )

  new_session_locked-IsFine :
      (uuid at now : String) (cfg : SessionConfig)
      → not (is_some (lookup ("CTS-" ++ uuid) m.sessions)) ≡ true
      → IsFinePair (new_session_locked ev uuid at now cfg m)
  unfolding IsFinePair new_session_locked with_rebuilt new_runtime new_test_session
  new_session_locked-IsFine uuid at now cfg fresh =
      bind_lookup IsFinePair (lookup (chosen_suite cfg) m.suites) _ h λ suite e.
        rebuild_in-IsConsistent ev now ("CTS-" ++ uuid) _
          (record m { order = m.order ++ₗ (("CTS-" ++ uuid) ∷ []); active_id = "CTS-" ++ uuid })
          refl (appended-IsPrepared ("CTS-" ++ uuid) (ground (arith, fresh)))

  start_session-IsFine :
      (uuid at now : String) (cfg : SessionConfig)
      → not (is_some (lookup ("CTS-" ++ uuid) m.sessions)) ≡ true
      → IsFinePair (start_session ev uuid at now cfg m)
  unfolding IsFinePair start_session
  start_session-IsFine uuid at now cfg fresh =
      if_cases IsFinePair (not (m.active_id ==ₛ "")) (λ e. h)
        (λ e. new_session_locked-IsFine uuid at now cfg fresh)

  rerun_session-IsFine :
      (uuid at now id : String)
      → not (is_some (lookup ("CTS-" ++ uuid) m.sessions)) ≡ true
      → IsFinePair (rerun_session ev uuid at now id m)
  unfolding IsFinePair rerun_session
  rerun_session-IsFine uuid at now id fresh =
      bind_lookup IsFinePair (lookup id m.sessions) _ h λ rt found.
        if_cases IsFinePair (not (m.active_id ==ₛ "")) (λ e. h)
          (λ e. new_session_locked-IsFine uuid at now rt.session.config fresh)

  delete_session-IsFine : (id : String) → IsFine (delete_session id m)
  unfolding IsFine delete_session
  delete_session-IsFine id = bind_lookup IsFine (lookup id m.sessions) _ h λ rt found. (
    λ k. rw (count-filter k id m.order) (ground (arith, h.0 k, lookup-without id k m.sessions)),
    λ k. ground (arith, h.1 k, lookup-without id k m.sessions),
    elim (Bool-cases (m.active_id ==ₛ id)) [
      | inl e ↦ rw e refl
      | inr e ↦
          rw (e, lookup-without id m.active_id m.sessions)
            (ground (arith, h.2, e, eq_iff id m.active_id, eq_iff m.active_id id))
    ],
  )

  record_traffic_event-IsFine :
      (uuid now : String) (event : TrafficEvent)
      → IsConsistent (record_traffic_event ev uuid now event m)
  unfolding record_traffic_event
  record_traffic_event-IsFine uuid now event =
      if_cases IsConsistent (m.active_id ==ₛ "") (λ e. h)
        λ e. elim (Option-cases (lookup m.active_id m.sessions)) [
          | inl found ↦ rw (record_traffic_event, found) h
          | inr (rt, found) ↦
              rw (record_traffic_event, found)
                (rebuild_stored ev now m.active_id rt _ m found refl h)
        ]

  mark_action_started-IsFine :
      (at now id action : String) → IsFine (mark_action_started ev at now id action m)
  unfolding IsFine mark_action_started started reset_checkpoints_for_action
  mark_action_started-IsFine at now id action =
      if_cases IsFine (not (m.active_id ==ₛ "") && not (m.active_id ==ₛ id)) (λ e. h)
        λ e. bind_lookup IsFine (lookup id m.sessions) _ h λ rt found.
          bind_lookup IsFine (lookup action rt.actions) _ h λ a known.
            bind_result IsFine (check_startable rt.session.current_step action a) (λ e'. h)
              λ b ready.
                rebuild_in-IsConsistent ev now id (started at action b rt)
                  (record m { active_id = id }) (kept-id id rt (sym (ap (kept id) found) ∙ h.1 id))
                  (λ k. ground (arith, h.0 k, found, eq_iff id k), h.1, ground (arith, eq_refl id))

  with_action-IsFine :
      (now id action : String) (change : ActionState → ActionState)
      → IsFinePair (with_action ev now id action change m)
  unfolding IsFinePair with_action with_rebuilt
  with_action-IsFine now id action change =
      bind_lookup IsFinePair (lookup id m.sessions) _ h λ rt found.
        bind_lookup IsFinePair (lookup action rt.actions) _ h
          λ a known. rebuild_stored ev now id rt _ m found refl h

  set_peer_state-IsFine :
      (now id : String) (peer : SessionPeerState) → IsFine (set_peer_state ev now id peer m)
  unfolding IsFine set_peer_state
  set_peer_state-IsFine now id peer =
      bind_lookup IsFine (lookup id m.sessions) _ h
        λ rt found. rebuild_stored ev now id rt _ m found refl h

  submit_checkpoint-IsFine :
      (at now id checkpoint answer notes : String)
      → IsFinePair (submit_checkpoint ev at now id checkpoint answer notes m)
  unfolding IsFinePair submit_checkpoint with_rebuilt
  submit_checkpoint-IsFine at now id checkpoint answer notes =
      bind_lookup IsFinePair (lookup id m.sessions) _ h λ rt found.
        if_cases IsFinePair (has_checkpoint checkpoint rt.cases)
          (λ e. rebuild_stored ev now id rt _ m found refl h) (λ e. h)

  update_sandbox-IsFine :
      (now id : String) (change : Seed → Result Seed) → IsFine (update_sandbox ev now id change m)
  unfolding IsFine update_sandbox
  update_sandbox-IsFine now id change = bind_lookup IsFine (lookup id m.sessions) _ h λ rt found.
      bind_result IsFine (change rt.seed) (λ e. h)
        λ seed changed. rebuild_stored ev now id rt _ m found refl h

pub apply_op-IsFine :
    (ev : Evaluators) (m : Manager) (op : Op)
    → is_fresh op m ≡ true
    → IsConsistent m
    → IsConsistent (after m (apply_op ev op m))
unfolding apply_op is_fresh IsFine IsFinePair complete_action fail_action
apply_op-IsFine ev m (start uuid at now cfg) f h = start_session-IsFine ev m h uuid at now cfg f
apply_op-IsFine ev m (rerun uuid at now id) f h = rerun_session-IsFine ev m h uuid at now id f
apply_op-IsFine ev m (delete id) f h = delete_session-IsFine ev m h id
apply_op-IsFine ev m (traffic uuid now event) f h =
    record_traffic_event-IsFine ev m h uuid now event
apply_op-IsFine ev m (mark_started at now id action) f h =
    mark_action_started-IsFine ev m h at now id action
apply_op-IsFine ev m (complete at now id action output) f h =
    with_action-IsFine ev m h now id action _
apply_op-IsFine ev m (fail at now id action error) f h = with_action-IsFine ev m h now id action _
apply_op-IsFine ev m (set_peer now id peer) f h = set_peer_state-IsFine ev m h now id peer
apply_op-IsFine ev m (submit at now id checkpoint answer notes) f h =
    submit_checkpoint-IsFine ev m h at now id checkpoint answer notes
apply_op-IsFine ev m (update now id change) f h = update_sandbox-IsFine ev m h now id change

-- In every state that the manager's operations reach from an empty one, failed ones included, where
-- new session ids are not in use: the order lists each stored session once and nothing else, each
-- session stands under its own id, is completed exactly if its summary has no pending, manual or
-- blocked case, and proposes the action that nextStep says, and the active session, if there is
-- one, is stored and running.
pub reachable-IsConsistent :
    (ev : Evaluators) (seed : Seed) (suites : Dict SuiteDefinition) (m : Manager)
    → IsReachable ev seed suites m
    → IsConsistent m
unfolding lookup
reachable-IsConsistent ev seed suites m created = (λ k. refl, λ k. refl, refl)
reachable-IsConsistent ev seed suites m (stepped {m = m0} op r f) =
    apply_op-IsFine ev m0 op f (reachable-IsConsistent ev seed suites m0 r)
