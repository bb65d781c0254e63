-- ===== src/Correctness/Persist/Complete.antt =====
-- When a session has a state for each action and each case of its suite (correctness/manager.go).
use ocpi_mock_hub.Prelude.{
  String, ◌≡◌, refl, sym, subst, inl, inr, Option, none, some, List, [], ◌∷◌, true, false, ◌==ₛ◌,
  Dict, lookup, put, has, all, is_some, Bool-cases, if_cases, lookup-put, eq_refl, arith,
}
use ocpi_mock_hub.Seed.{Seed}
use ocpi_mock_hub.Correctness.Types.{
  SuiteDefinition, ActionDefinition, CaseDefinition, ActionState, CaseResult, SessionConfig,
  SessionRuntime, Evaluators,
}
use ocpi_mock_hub.Correctness.Rebuild.{rebuild_cases, rebuild_session, filled, stepped, closed}
use ocpi_mock_hub.Correctness.Rebuild.Session.{rebuild_cases-session, rebuild_cases-suite}
use ocpi_mock_hub.Correctness.Manager.{
  idle_actions, idle_action, pending_cases, pending_case, new_runtime, new_test_session, reset_in,
  reset_case, reset_cases, answer_cases,
}
use ocpi_mock_hub.Correctness.Persist.RoundTrip.{IsComplete, IsSuite}

-- no key is lost
abbrev pub IsGrown : {A : Type 0} → Dict A → Dict A → Type 0
IsGrown m m' = (k : String) → is_some (lookup k m) ≡ true → is_some (lookup k m') ≡ true

module _ {A : Type 0} where
  pub put-IsGrown : (k : String) (a : A) (m : Dict A) → IsGrown m (put k a m)
  put-IsGrown k a m j h = rw (lookup-put k j a m) (ground (arith, h))

  has_put : (k : String) (a : A) (m : Dict A) → is_some (lookup k (put k a m)) ≡ true
  has_put k a m = rw (lookup-put k k a m, eq_refl k) refl

all_grown :
    {A D : Type 0} (id : D → String) (defs : List D) (m m' : Dict A)
    → IsGrown m m'
    → all (λ d. is_some (lookup (id d) m)) defs ≡ true
    → all (λ d. is_some (lookup (id d) m')) defs ≡ true
all_grown id [] m m' g h = refl
all_grown id (d ∷ ds) m m' g h =
    let first : is_some (lookup (id d) m) ≡ true = ground (arith, h) in
    rw (g (id d) first) (all_grown id ds m m' g (rw first at h))

idle_actions-IsGrown :
    (defs : List ActionDefinition) (m : Dict ActionState) → IsGrown m (idle_actions defs m)
unfolding idle_actions
idle_actions-IsGrown [] m k h = h
idle_actions-IsGrown (def ∷ defs) m k h =
    idle_actions-IsGrown defs _ k (put-IsGrown def.id (idle_action def) m k h)

idle_actions-full :
    (defs : List ActionDefinition) (m : Dict ActionState)
    → all (λ d. is_some (lookup d.id (idle_actions defs m))) defs ≡ true
unfolding idle_actions
idle_actions-full [] m = refl
idle_actions-full (def ∷ defs) m =
    rw (idle_actions-IsGrown defs _ def.id (has_put def.id (idle_action def) m))
      (idle_actions-full defs _)

pending_cases-IsGrown :
    (defs : List CaseDefinition) (m : Dict CaseResult) → IsGrown m (pending_cases defs m)
unfolding pending_cases
pending_cases-IsGrown [] m k h = h
pending_cases-IsGrown (def ∷ defs) m k h =
    pending_cases-IsGrown defs _ k (put-IsGrown def.id (pending_case def) m k h)

pending_cases-full :
    (defs : List CaseDefinition) (m : Dict CaseResult)
    → all (λ d. is_some (lookup d.id (pending_cases defs m))) defs ≡ true
unfolding pending_cases
pending_cases-full [] m = refl
pending_cases-full (def ∷ defs) m =
    rw (pending_cases-IsGrown defs _ def.id (has_put def.id (pending_case def) m))
      (pending_cases-full defs _)

pub new_runtime-IsComplete :
    (suites : Dict SuiteDefinition) (id now : String) (suite : SuiteDefinition) (seed : Seed)
    (cfg : SessionConfig)
    → IsSuite suite
    → lookup suite.id suites ≡ some suite
    → IsComplete suites (new_runtime id now suite seed cfg)
unfolding new_runtime new_test_session
new_runtime-IsComplete suites id now suite seed cfg h found =
    (found, h.1, idle_actions-full suite.actions [], pending_cases-full suite.cases [])

module _ (suites : Dict SuiteDefinition) where
  -- a session whose suite and name stay, and whose maps lose no key
  pub IsComplete-grown :
      (rt : SessionRuntime) (actions : Dict ActionState) (cases : Dict CaseResult)
      → IsGrown rt.actions actions
      → IsGrown rt.cases cases
      → IsComplete suites rt
      → IsComplete suites (record rt { actions = actions; cases = cases })
  IsComplete-grown rt actions cases g g' (found, named, as', cs') = (
    found,
    named,
    all_grown (λ d. d.id) rt.suite.actions rt.actions actions g as',
    all_grown (λ d. d.id) rt.suite.cases rt.cases cases g' cs',
  )

  module _ (evaluators : Evaluators) (now : String) where
    rebuild_cases-actions :
        (defs : List CaseDefinition) (rt : SessionRuntime)
        → (rebuild_cases evaluators now defs rt).0.actions ≡ rt.actions
    unfolding rebuild_cases
    rebuild_cases-actions [] rt = refl
    rebuild_cases-actions (def ∷ defs) rt = rebuild_cases-actions defs _

    rebuild_cases-IsGrown :
        (defs : List CaseDefinition) (rt : SessionRuntime)
        → IsGrown rt.cases (rebuild_cases evaluators now defs rt).0.cases
    unfolding rebuild_cases
    rebuild_cases-IsGrown [] rt k h = h
    rebuild_cases-IsGrown (def ∷ defs) rt k h =
        rebuild_cases-IsGrown defs _ k (put-IsGrown def.id _ rt.cases k h)

    abbrev looped : SessionRuntime → SessionRuntime
    looped rt = (rebuild_cases evaluators now rt.suite.cases rt).0

    pub rebuild_session-IsComplete :
        (rt : SessionRuntime)
        → IsComplete suites rt
        → IsComplete suites (rebuild_session evaluators now rt)
    unfolding rebuild_session filled stepped closed
    rebuild_session-IsComplete rt (found, named, actions, cases) =
        let suite = sym (rebuild_cases-suite evaluators now rt.suite.cases rt) in
        (
          subst (λ u. lookup u.id suites ≡ some u) suite found,
          subst (λ s. (s.suite_name ==ₛ "") ≡ false)
              (sym (rebuild_cases-session evaluators now rt.suite.cases rt)) named,
          subst (λ u. all (λ d. is_some (lookup d.id (looped rt).actions)) u.actions ≡ true) suite
              (subst (λ m. all (λ d. is_some (lookup d.id m)) rt.suite.actions ≡ true)
                (sym (rebuild_cases-actions rt.suite.cases rt)) actions),
          subst (λ u. all (λ d. is_some (lookup d.id (looped rt).cases)) u.cases ≡ true) suite
              (all_grown (λ d. d.id) rt.suite.cases rt.cases (looped rt).cases
                (rebuild_cases-IsGrown rt.suite.cases rt) cases),
        )

reset_in-IsGrown :
    (id : String) (o : Option CaseResult) (cases : Dict CaseResult)
    → IsGrown cases (reset_in id o cases)
unfolding reset_in
reset_in-IsGrown id none cases k h = h
reset_in-IsGrown id (some r) cases k h = put-IsGrown id (reset_case r) cases k h

pub reset_cases-IsGrown :
    (action : String) (defs : List CaseDefinition) (cases : Dict CaseResult)
    → IsGrown cases (reset_cases action defs cases)
unfolding reset_cases
reset_cases-IsGrown action [] cases k h = h
reset_cases-IsGrown action (def ∷ defs) cases k h = reset_cases-IsGrown action defs _ k (
    if_cases {A = Dict CaseResult} (λ m. is_some (lookup k m) ≡ true) (has action def.action_ids)
      (λ e. reset_in-IsGrown def.id (lookup def.id cases) cases k h) (λ e. h))

pub answer_cases-IsGrown :
    (at id answer notes : String) (cases : Dict CaseResult)
    → IsGrown cases (answer_cases at id answer notes cases)
unfolding answer_cases lookup
answer_cases-IsGrown at id answer notes [] k h = h
answer_cases-IsGrown at id answer notes ((j, r) ∷ cases) k h = elim (Bool-cases (j ==ₛ k)) [
  | inl e ↦ rw e refl
  | inr e ↦ rw e (answer_cases-IsGrown at id answer notes cases k (rw e at h))
]
