-- ===== src/Correctness/Manager/Anchored.antt =====
-- The actions of a session (MarkActionStarted, CompleteAction and FailAction, correctness/manager.go)
-- in the states that the operations reach: their ids, and where their windows begin.
use ocpi_mock_hub.Prelude.{
  ℕ, ◌+◌, ◌≤◌, String, ◌≡◌, refl, sym, ap, ◌∙◌, Option, none, some, List, [], ◌∷◌, ◌++◌ as ◌++ₗ◌,
  Bool, true, ◌&&◌, ◌==ₛ◌, leb, Dict, lookup, put, length, length-append, lookup-put, eq_iff,
  eq_refl, arith,
}
use ocpi_mock_hub.Seed.{Seed}
use ocpi_mock_hub.Correctness.Types.{
  SuiteDefinition, ActionDefinition, CaseDefinition, TrafficEvent, ActionState, SessionRuntime,
  Evaluators, Manager,
}
use ocpi_mock_hub.Correctness.Rebuild.{rebuild_cases, rebuild_session}
use ocpi_mock_hub.Correctness.Manager.{
  new_runtime, idle_action, idle_actions, started, started_action, reset_checkpoints_for_action,
}
use ocpi_mock_hub.Correctness.Manager.Reachable.{IsReachable}
use ocpi_mock_hub.Correctness.Manager.Induction.{IsInductive, reachable-Every}
use ocpi_mock_hub.Correctness.Persist.RoundTrip.{Every-lookup}

-- an action that stands under its own id, with an anchor not past n events
abbrev pub is_placed : ℕ → String → Option ActionState → Bool
is_placed n id none = true
is_placed n id (some a) = (a.id ==ₛ id) && leb a.event_anchor n

pub record ArePlaced (actions : Dict ActionState) (events : List TrafficEvent) : Type 0 where
  pub at_key : (id : String) → is_placed (length events) id (lookup id actions) ≡ true

unfoldable pub IsPlaced : SessionRuntime → Type 0
IsPlaced rt = ArePlaced rt.actions rt.events

put-ArePlaced :
    (k : String) (a : ActionState) (actions : Dict ActionState) (events : List TrafficEvent)
    → is_placed (length events) k (some a) ≡ true
    → ArePlaced actions events
    → ArePlaced (put k a actions) events
put-ArePlaced k a actions events p h = record {
  at_key = λ id. rw (lookup-put k id a actions) (ground (arith, p, h.at_key id, eq_iff k id));
}

idle_actions-ArePlaced :
    (defs : List ActionDefinition) (actions : Dict ActionState) (events : List TrafficEvent)
    → ArePlaced actions events
    → ArePlaced (idle_actions defs actions) events
unfolding idle_actions idle_action
idle_actions-ArePlaced [] actions events h = h
idle_actions-ArePlaced (def ∷ defs) actions events h =
    idle_actions-ArePlaced defs _ events
      (put-ArePlaced def.id (idle_action def) actions events (ground (arith, eq_refl def.id)) h)

-- more events leave every anchor where it was
grown-IsPlaced :
    (n m : ℕ) (id : String) (o : Option ActionState)
    → is_placed n id o ≡ true
    → is_placed (n + m) id o ≡ true
grown-IsPlaced n m id none h = refl
grown-IsPlaced n m id (some a) h = ground (arith, h)

append-ArePlaced :
    (actions : Dict ActionState) (events new : List TrafficEvent)
    → ArePlaced actions events
    → ArePlaced actions (events ++ₗ new)
append-ArePlaced actions events new h = record {
  at_key = λ id.
      rw (length-append events new)
        (grown-IsPlaced (length events) (length new) id (lookup id actions) (h.at_key id));
}

module _ (ev : Evaluators) (now : String) where
  rebuild_cases-ArePlaced :
      (defs : List CaseDefinition) (rt : SessionRuntime)
      → IsPlaced rt
      → IsPlaced (rebuild_cases ev now defs rt).0
  unfolding rebuild_cases IsPlaced
  rebuild_cases-ArePlaced [] rt h = h
  rebuild_cases-ArePlaced (def ∷ defs) rt h = rebuild_cases-ArePlaced defs _ h

  rebuild_session-IsPlaced :
      (rt : SessionRuntime) → IsPlaced rt → IsPlaced (rebuild_session ev now rt)
  unfolding rebuild_session IsPlaced
  rebuild_session-IsPlaced rt h = rebuild_cases-ArePlaced rt.suite.cases rt h

-- the state of an action that is stored
stored-IsPlaced :
    (rt : SessionRuntime) (action : String) (a : ActionState)
    → IsPlaced rt
    → lookup action rt.actions ≡ some a
    → is_placed (length rt.events) action (some a) ≡ true
unfolding IsPlaced
stored-IsPlaced rt action a p known =
    sym (ap (is_placed (length rt.events) action) known) ∙ p.at_key action

pub IsPlaced-IsInductive :
    (ev : Evaluators) (suites : Dict SuiteDefinition) → IsInductive ev suites IsPlaced IsPlaced
unfolding IsPlaced new_runtime lookup started started_action reset_checkpoints_for_action
IsPlaced-IsInductive ev suites = record {
  rebuilt = λ now rt p. rebuild_session-IsPlaced ev now rt p;
  kept = λ rt p. p;
  fresh = λ key id at suite seed cfg found.
      idle_actions-ArePlaced suite.actions [] [] (record { at_key = λ k. refl });
  grown = λ rt event p. append-ArePlaced rt.actions rt.events (event ∷ []) p;
  begun = λ at action rt a known p.
      let placed = stored-IsPlaced rt action a p known in
      put-ArePlaced action (started_action at rt a) rt.actions rt.events (ground (arith, placed)) p;
  changed = λ action rt a b known named anchored p.
      put-ArePlaced action b rt.actions rt.events
        (rw (named, anchored) (stored-IsPlaced rt action a p known)) p;
  peered = λ rt peer p. p;
  answered = λ at id answer notes rt p. p;
  seeded = λ rt seed p. p;
}

-- the two facts that IsPlaced is about
pub stored-anchored :
    (rt : SessionRuntime) (id : String) (a : ActionState)
    → IsPlaced rt
    → lookup id rt.actions ≡ some a
    → (a.id ≡ id) × (a.event_anchor ≤ length rt.events)
stored-anchored rt id a p known =
    let placed = stored-IsPlaced rt id a p known in
    (ground (arith, placed, eq_iff a.id id), ground (arith, placed))

-- In every state that the manager's operations reach from an empty one, failed ones included, where
-- new session ids are not in use: each action of each stored session stands under its own id, with
-- an anchor that is not past the session's events.
pub reachable-anchored :
    (ev : Evaluators) (seed : Seed) (suites : Dict SuiteDefinition) (m : Manager)
    → IsReachable ev seed suites m
    → (key id : String) (rt : SessionRuntime) (a : ActionState) → lookup key m.sessions ≡ some rt
    → lookup id rt.actions ≡ some a
    → (a.id ≡ id) × (a.event_anchor ≤ length rt.events)
reachable-anchored ev seed suites m r key id rt a stored known =
    let all_placed = (reachable-Every (IsPlaced-IsInductive ev suites) seed m r).2 in
    stored-anchored rt id a (Every-lookup IsPlaced key m.sessions rt all_placed stored) known
