-- ===== src/Examples/Suites.antt =====
-- The theorems on correctness sessions at concrete inputs: a suite of two cases, the second of which
-- requires the first, and an evaluator that passes a case once its action is completed.
use ocpi_mock_hub.Prelude.{
  length, ◌≤◌, String, ◌≡◌, ◌↔◌, refl, ap, subst, inl, inr, Option, none, some, List, [], ◌∷◌, ◌||◌,
  not, ◌==ₛ◌, if◌then◌else◌, Dict, lookup, put, any, or_else, is_some, Bool-cases, eq_iff, arith,
}
use ocpi_mock_hub.Json.{no_bytes, text}
use ocpi_mock_hub.MemoryStore.{MemoryStore, new_memory_store}
use ocpi_mock_hub.MemoryStore.Instance.{memory_store}
use ocpi_mock_hub.MemoryStore.Parties.{new_memory_store-IsIndexed}
use ocpi_mock_hub.Auth.{token_auth, is_public, auth_token_candidates}
use ocpi_mock_hub.Auth.Laws.{admits, is_known}
use ocpi_mock_hub.Correctness.Types.{
  SuiteDefinition, CaseDefinition, ActionDefinition, SessionConfig, SessionStep, SessionRuntime,
  CaseEvaluation, Evaluators, ActionState, Manager, no_action,
}
use ocpi_mock_hub.Correctness.Rebuild.{rebuild_session, count_case, entered}
use ocpi_mock_hub.Correctness.Rebuild.Summary.{counted, rebuild_session-summary}
use ocpi_mock_hub.Correctness.NextStep.{action_map, case_map, next_step}
use ocpi_mock_hub.Correctness.NextStep.Order.{IsActionAt}
use ocpi_mock_hub.Correctness.Manager.{mark_action_started, new_runtime}
use ocpi_mock_hub.Correctness.Manager.Invariant.{IsConsistent}
use ocpi_mock_hub.Correctness.Manager.Reachable.{
  Op, start, submit, apply_op, after, is_fresh, IsReachable, created, stepped, new_manager,
  reachable-IsConsistent,
}
use ocpi_mock_hub.Correctness.Manager.Anchored.{reachable-anchored}
use ocpi_mock_hub.Correctness.Manager.Start.{mark_action_started-in_order}
use ocpi_mock_hub.Correctness.Persist.{Codec, IsFaithful, PersistedManager, json_manager}
use ocpi_mock_hub.Correctness.Persist.RoundTrip.{IsRegistry, IsSuite}
use ocpi_mock_hub.Correctness.Persist.Refines.{serve, run, load_state, are_fresh, serve-run}
use ocpi_mock_hub.Correctness.Scope.{InboundRequest, matches_inbound_request}
use ocpi_mock_hub.Correctness.Scope.Laws.{is_active_own, token_auth-session}
use ocpi_mock_hub.Correctness.Blobs.{
  Event, begins, ends, IsRun, at_first, then_event, BlobStore, get_blob, happen,
}
use ocpi_mock_hub.Correctness.Blobs.Laws.{get_blob-specified}
use ocpi_mock_hub.Overlay.Scoped.{ScopedState, active_overlay}
use ocpi_mock_hub.Overlay.Scoped.Laws.{
  put_session_call, set_token_b_call, IsIsolated, perform_all-IsIsolated,
}
use ocpi_mock_hub.Examples.Worlds.{base64, seed}

abbrev action : ActionDefinition
action = record {
  id = "push";
  group = "tokens";
  title = "Push";
  description = "Push it";
  kind = "run";
}

abbrev case_of : String → List String → List String → CaseDefinition
case_of id actions requires = record {
  id = id;
  group = "tokens";
  title = id;
  description = "";
  evaluator = "done";
  action_ids = actions;
  requires = requires;
  checkpoints = record { id = "confirm"; prompt = "Seen?"; placeholder = "" } ∷ [];
  scenario_source = [];
  normative_source = [];
  compatibility_profile = "";
}

abbrev suite : SuiteDefinition
suite = record {
  id = "core";
  name = "Core";
  description = "";
  actions = action ∷ [];
  cases = case_of "create" ("push" ∷ []) [] ∷ case_of "update" ("push" ∷ []) ("create" ∷ []) ∷ [];
  deferred = [];
}

abbrev suites : Dict SuiteDefinition
suites = ("core", suite) ∷ []

abbrev verdict : SessionRuntime → CaseDefinition → CaseEvaluation
verdict rt def = record {
  status =
      if (or_else (lookup "push" rt.actions) no_action).status ==ₛ "completed"
      then "passed"
      else "pending";
  messages = [];
  evidence_event_ids = [];
}

abbrev evaluators : Evaluators
evaluators name = if name ==ₛ "done" then some verdict else none

abbrev config : SessionConfig
config = record { suite_id = "core"; name = ""; peer_versions_url = ""; peer_token = "tok" }

abbrev starting : Op
starting = start "u1" "t0" "t1" config

abbrev empty : Manager
empty = new_manager seed suites

abbrev started_manager : Manager
started_manager = after empty (apply_op evaluators starting empty)

started-IsReachable : IsReachable evaluators seed suites started_manager
unfolding is_fresh lookup
started-IsReachable = stepped starting created refl

reachable-IsConsistent_example : IsConsistent started_manager
reachable-IsConsistent_example =
    reachable-IsConsistent evaluators seed suites started_manager started-IsReachable

abbrev runtime : SessionRuntime
runtime = new_runtime "CTS-u1" "t0" suite seed config

rebuild_session-summary_example :
    let s = (rebuild_session evaluators "t1" runtime).session in
    (s.summary.total_cases ≡ 2)
    × (counted s.summary ≡ 2)
    × (s.summary.completion_rate ≤ 100)
    × ((s.summary.completion_rate ≡ 100) ↔ (s.status ≡ "completed"))
unfolding new_runtime
rebuild_session-summary_example = rebuild_session-summary evaluators "t1" runtime (omega arith)

abbrev started_runtime : SessionRuntime
started_runtime = rebuild_session evaluators "t1" runtime

abbrev idle_push : ActionState
idle_push = record no_action {
  id = "push";
  group = "tokens";
  title = "Push";
  description = "Push it";
  kind = "run";
  status = "idle";
}

reachable-anchored_example :
    (idle_push.id ≡ "push") × (idle_push.event_anchor ≤ length started_runtime.events)
unfolding apply_op new_runtime rebuild_session lookup put
reachable-anchored_example =
    reachable-anchored evaluators seed suites started_manager started-IsReachable "CTS-u1" "push"
      started_runtime idle_push refl refl

mark_action_started-in_order_example :
    (step : SessionStep) × (step.action_id ≡ "push")
    × IsActionAt
        (action_map started_runtime.session.actions [])
        (case_map started_runtime.session.cases [])
        started_runtime.suite.cases
        step
unfolding apply_op new_runtime rebuild_session lookup mark_action_started put count_case entered
    next_step
mark_action_started-in_order_example =
    mark_action_started-in_order evaluators seed suites "t1" "t1" "CTS-u1" "push" started_manager
      started_runtime idle_push started-IsReachable refl refl refl refl refl

-- a codec whose blobs are the states themselves
abbrev codec : Codec
codec = record {
  Blob = Option PersistedManager;
  nothing = none;
  is_blank = λ b. not (is_some b);
  marshal = λ p. some (json_manager p);
  unmarshal = λ b. b;
}

codec-IsFaithful : IsFaithful codec
codec-IsFaithful = (refl, λ p. (refl, refl))

suites-IsRegistry : IsRegistry suites
unfolding lookup
suites-IsRegistry k s e = elim (Bool-cases ("core" ==ₛ k)) [
  | inl t ↦
      subst (λ u. (u.id ≡ k) × IsSuite u) (ap (λ o. or_else o suite) (rw t at e))
        ((eq_iff "core" k).0 t, (refl, refl, refl, refl))
  | inr t ↦ absurd (missing (rw t at e))
]
  where
    missing : {A : Type 0} {a : A} → none ≡ some a → ⊥
    missing h = ground (arith, h)

serve-run_example :
    load_state seed suites evaluators codec (
      serve seed suites evaluators codec
        (starting ∷ submit "t1" "t1" "CTS-u1" "confirm" "yes" "" ∷ [])
        none)
    ≡ some (
        run seed suites evaluators
          (starting ∷ submit "t1" "t1" "CTS-u1" "confirm" "yes" "" ∷ [])
          empty)
unfolding are_fresh is_fresh lookup
serve-run_example =
    serve-run seed suites evaluators codec codec-IsFaithful suites-IsRegistry
      (starting ∷ submit "t1" "t1" "CTS-u1" "confirm" "yes" "" ∷ []) refl

abbrev request : InboundRequest
request = record {
  authorization = "Token dG9r";
  from_country_code = "";
  from_party_id = "";
  path = "/ocpi/2.2.1/sender/locations";
}

abbrev overlay_state : MemoryStore
overlay_state = record new_memory_store { token_b = "tok" }

token_auth-session_example :
    admits (
      token_auth base64 memory_store "/ocpi/2.2.1/sender/locations" "GET" "Token dG9r"
        (matches_inbound_request base64 memory_store started_manager overlay_state request)
        new_memory_store)
    ≡ is_public "/ocpi/2.2.1/sender/locations" "GET"
      || any (is_known new_memory_store) (auth_token_candidates base64 "Token dG9r")
      || is_active_own base64 memory_store
          (lookup started_manager.active_id started_manager.sessions)
          overlay_state
          request
token_auth-session_example =
    token_auth-session base64 memory_store started_manager overlay_state request
      "/ocpi/2.2.1/sender/locations" "GET" new_memory_store new_memory_store-IsIndexed

-- two updates of different blobs, interleaved
abbrev interleaved : List Event
interleaved = ends "a" (λ b. some (text "1")) ∷ ends "b" (λ b. none) ∷ begins "b" ∷ begins "a" ∷ []

abbrev blob_store : BlobStore
blob_store = record { blobs = ("a", text "1") ∷ []; held = [] }

interleaved-IsRun : IsRun interleaved blob_store
unfolding happen lookup put
interleaved-IsRun =
    then_event (ends "a" (λ b. some (text "1"))) blob_store
      (then_event (ends "b" (λ b. none)) (record { blobs = []; held = ("a", no_bytes) ∷ [] })
        (then_event (begins "b")
          (record { blobs = []; held = ("b", no_bytes) ∷ ("a", no_bytes) ∷ [] })
          (then_event (begins "a") (record { blobs = []; held = ("a", no_bytes) ∷ [] }) at_first
            refl)
          refl)
        refl)
      refl

get_blob-specified_example : get_blob "a" blob_store ≡ text "1"
unfolding get_blob
get_blob-specified_example = get_blob-specified interleaved blob_store "a" interleaved-IsRun

abbrev scoped_state : ScopedState memory_store
scoped_state = record { inner = new_memory_store; overlays = [] }

perform_all-IsIsolated_example :
    IsIsolated memory_store
      (active_overlay started_manager)
      (put_session_call "S1" (text "s") ∷ set_token_b_call "tok" ∷ [])
      scoped_state
perform_all-IsIsolated_example =
    perform_all-IsIsolated memory_store started_manager
      (put_session_call "S1" (text "s") ∷ set_token_b_call "tok" ∷ []) scoped_state
