-- ===== src/Correctness/Persist/Anchors.antt =====
-- The anchors of actions that JSON drops (correctness/types.go).
use ocpi_mock_hub.Prelude.{
  String, ◌≡◌, refl, sym, ap, ◌∙◌, inl, inr, Option, none, some, List, [], ◌∷◌, ◌&&◌, ◌==ₛ◌,
  if◌then◌else◌, Dict, lookup, put, without, map, or_else, Bool-cases, Option-cases,
}
use ocpi_mock_hub.Seed.{Seed}
use ocpi_mock_hub.Correctness.Types.{
  SuiteDefinition, CaseDefinition, ActionState, CaseResult, SessionStep, SessionRuntime, Manager,
  no_case,
}
use ocpi_mock_hub.Correctness.NextStep.{
  action_map, action_step, open_action, case_map, step_loop, keep_first, message_step, next_step,
}
use ocpi_mock_hub.Correctness.Rebuild.{is_finished}
use ocpi_mock_hub.Correctness.Manager.Invariant.{IsConsistent, kept, running, stored}
use ocpi_mock_hub.Correctness.Persist.{map_values, without_anchor, without_anchors}
use ocpi_mock_hub.Correctness.Persist.RoundTrip.{Every, end, also, IsComplete, unanchored, reloaded}

module _ {A B : Type 0} (f : A → B) where
  without-map_values :
      (k : String) (m : Dict A) → map_values f (without k m) ≡ without k (map_values f m)
  unfolding map_values without
  without-map_values k [] = refl
  without-map_values k ((j, a) ∷ m) = elim (Bool-cases (j ==ₛ k)) [
    | inl e ↦ rw e (without-map_values k m)
    | inr e ↦ rw e (ap (λ l. (j, f a) ∷ l) (without-map_values k m))
  ]

  mapped : Option A → Option B
  mapped none = none
  mapped (some a) = some (f a)

  lookup-map_values : (k : String) (m : Dict A) → lookup k (map_values f m) ≡ mapped (lookup k m)
  unfolding map_values lookup mapped
  lookup-map_values k [] = refl
  lookup-map_values k ((j, a) ∷ m) = elim (Bool-cases (j ==ₛ k)) [
    | inl e ↦ rw e refl
    | inr e ↦ rw e (lookup-map_values k m)
  ]

action_map-without_anchor :
    (as' : List ActionState) (m : Dict ActionState)
    → action_map (map without_anchor as') (map_values without_anchor m)
      ≡ map_values without_anchor (action_map as' m)
unfolding action_map put map_values without_anchor
action_map-without_anchor [] m = refl
action_map-without_anchor (a ∷ rest) m =
    ap (λ l. action_map (map without_anchor rest) ((a.id, without_anchor a) ∷ l))
      (sym (without-map_values without_anchor a.id m))
    ∙ action_map-without_anchor rest (put a.id a m)

open_action-without_anchor :
    (def : CaseDefinition) (m : Dict ActionState) (ids : List String)
    → open_action def (map_values without_anchor m) ids ≡ open_action def m ids
unfolding open_action mapped without_anchor action_step
open_action-without_anchor def m [] = refl
open_action-without_anchor def m (id ∷ ids) = elim (Option-cases (lookup id m)) [
  | inl e ↦ rw (lookup-map_values without_anchor id m, e, open_action-without_anchor def m ids) refl
  | inr (a, e) ↦
      rw (lookup-map_values without_anchor id m, e, open_action-without_anchor def m ids) refl
]

step_loop-without_anchor :
    (m : Dict ActionState) (cases : Dict CaseResult) (blocked : Option SessionStep)
    (defs : List CaseDefinition)
    → step_loop (map_values without_anchor m) cases blocked defs ≡ step_loop m cases blocked defs
unfolding step_loop
step_loop-without_anchor m cases blocked [] = refl
step_loop-without_anchor m cases blocked (def ∷ defs) =
    rw
      (
        open_action-without_anchor def m def.action_ids,
        step_loop-without_anchor m cases
            (if (or_else (lookup def.id cases) no_case).status ==ₛ "blocked"
              then keep_first blocked (message_step (or_else (lookup def.id cases) no_case))
              else blocked)
            defs,
      )
      refl

next_step-unanchored :
    (rt : SessionRuntime)
    → next_step rt.suite (unanchored rt).session ≡ next_step rt.suite rt.session
unfolding next_step unanchored without_anchors map_values
next_step-unanchored rt =
    ap (λ m. step_loop m (case_map rt.session.cases []) none rt.suite.cases)
      (action_map-without_anchor rt.session.actions [])
    ∙ step_loop-without_anchor (action_map rt.session.actions []) (case_map rt.session.cases [])
        none rt.suite.cases

kept-unanchored : (k : String) (o : Option SessionRuntime) → kept k (mapped unanchored o) ≡ kept k o
unfolding mapped unanchored without_anchors
kept-unanchored k none = refl
kept-unanchored k (some rt) =
    ap
      (λ s.
        (rt.session.id ==ₛ k)
        && (rt.session.status
            ==ₛ (if is_finished rt.session.summary then "completed" else "running"))
        && (rt.session.current_step.action_id ==ₛ s.action_id))
      (next_step-unanchored rt)

stored-unanchored : (o : Option SessionRuntime) → stored (mapped unanchored o) ≡ stored o
unfolding mapped
stored-unanchored none = refl
stored-unanchored (some rt) = refl

running-unanchored : (o : Option SessionRuntime) → running (mapped unanchored o) ≡ running o
unfolding mapped unanchored without_anchors
running-unanchored none = refl
running-unanchored (some rt) = refl

module _ (base : Seed) (suites : Dict SuiteDefinition) where
  pub reloaded-IsConsistent : (m : Manager) → IsConsistent m → IsConsistent (reloaded base suites m)
  reloaded-IsConsistent m (listed, keeps, active) = (
    λ k.
        rw (lookup-map_values unanchored k m.sessions, stored-unanchored (lookup k m.sessions))
          (listed k),
    λ k.
        rw (lookup-map_values unanchored k m.sessions, kept-unanchored k (lookup k m.sessions))
          (keeps k),
    rw
        (
          lookup-map_values unanchored m.active_id m.sessions,
          running-unanchored (lookup m.active_id m.sessions),
        )
        active,
  )

  pub Every-unanchored :
      (sessions : Dict SessionRuntime)
      → Every (IsComplete suites) sessions
      → Every (IsComplete suites) (map_values unanchored sessions)
  unfolding map_values unanchored without_anchors
  Every-unanchored [] end = end
  Every-unanchored ((k, rt) ∷ rest) (also p ps) = also p (Every-unanchored rest ps)
