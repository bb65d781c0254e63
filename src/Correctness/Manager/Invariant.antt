-- ===== src/Correctness/Manager/Invariant.antt =====
-- When the state of the Manager (correctness/manager.go) is consistent.
use ocpi_mock_hub.Prelude.{
  ℕ, ◌+◌, String, ◌≡◌, refl, sym, ap, ◌∙◌, inl, inr, Option, none, some, List, [], ◌∷◌, Bool, true,
  false, ◌&&◌, ◌||◌, not, ◌==ₛ◌, if◌then◌else◌, lookup, filter, Bool-cases, lookup-put, eq_iff,
  arith, ◌++◌ as ◌++ₗ◌,
}
use ocpi_mock_hub.Correctness.Types.{SessionRuntime, Evaluators, Manager}
use ocpi_mock_hub.Correctness.NextStep.{next_step}
use ocpi_mock_hub.Correctness.Rebuild.{rebuild_session, is_finished}
use ocpi_mock_hub.Correctness.Rebuild.Session.{
  rebuild_session-id, rebuild_session-status, rebuild_session-current_step,
}
use ocpi_mock_hub.Correctness.Manager.{rebuild_in}

-- how often a key stands in a list
abbrev pub count : String → List String → ℕ
count k [] = 0
count k (j ∷ js) = (if j ==ₛ k then 1 else 0) + count k js

abbrev pub stored : Option SessionRuntime → ℕ
stored none = 0
stored (some rt) = 1

-- a session stands under its own id, with the status that its summary says and the action that
-- nextStep proposes
abbrev pub kept : String → Option SessionRuntime → Bool
kept k none = true
kept k (some rt) =
    (rt.session.id ==ₛ k)
    && (rt.session.status ==ₛ (if is_finished rt.session.summary then "completed" else "running"))
    && (rt.session.current_step.action_id ==ₛ (next_step rt.suite rt.session).action_id)

abbrev pub running : Option SessionRuntime → Bool
running none = false
running (some rt) = rt.session.status ==ₛ "running"

-- The order lists each stored session once, each stands under its own id with the status of its
-- summary, and the active session, if there is one, is stored and running.
abbrev pub IsConsistent : Manager → Type 0
IsConsistent m =
    ((k : String) → count k m.order ≡ stored (lookup k m.sessions))
    × ((k : String) → kept k (lookup k m.sessions) ≡ true)
    × (((m.active_id ==ₛ "") || running (lookup m.active_id m.sessions)) ≡ true)

-- the state in which the session `key` may be rebuilt
abbrev pub IsPrepared : String → Manager → Type 0
IsPrepared key m =
    ((k : String) → count k m.order ≡ (if key ==ₛ k then 1 else stored (lookup k m.sessions)))
    × ((k : String) → kept k (lookup k m.sessions) ≡ true)
    × (((m.active_id ==ₛ "") || (m.active_id ==ₛ key) || running (lookup m.active_id m.sessions))
        ≡ true)

pub count-append :
    (k : String) (xs ys : List String) → count k (xs ++ₗ ys) ≡ count k xs + count k ys
count-append k [] ys = omega arith
count-append k (x ∷ xs) ys = omega (arith, count-append k xs ys)

pub count-filter :
    (k id : String) (xs : List String)
    → count k (filter (λ j. not (j ==ₛ id)) xs) ≡ (if id ==ₛ k then 0 else count k xs)
count-filter k id [] = ground arith
count-filter k id (x ∷ xs) =
    ground (arith, count-filter k id xs, eq_iff x id, eq_iff x k, eq_iff id k)

kept_by :
    (rt : SessionRuntime) (key : String)
    → rt.session.id ≡ key
    → rt.session.status ≡ (if is_finished rt.session.summary then "completed" else "running")
    → rt.session.current_step ≡ next_step rt.suite rt.session
    → kept key (some rt) ≡ true
kept_by rt key named e f = ground (
  arith,
  named,
  e,
  ap (λ s. s.action_id) f,
  eq_iff rt.session.current_step.action_id (next_step rt.suite rt.session).action_id,
  eq_iff rt.session.id key,
  eq_iff rt.session.status (if is_finished rt.session.summary then "completed" else "running"),
)

pub kept-id : (key : String) (rt : SessionRuntime) → kept key (some rt) ≡ true → rt.session.id ≡ key
kept-id key rt h = ground (arith, h, eq_iff rt.session.id key)

status_running :
    (active key status : String) (finished : Bool)
    → (finished && (active ==ₛ key)) ≡ false
    → status ≡ (if finished then "completed" else "running")
    → (key ==ₛ active) ≡ true
    → ((active ==ₛ "") || (status ==ₛ "running")) ≡ true
status_running active key status finished f g e =
    ground (arith, f, g, e, eq_iff key active, eq_iff active key, eq_iff status "running")

still_active :
    (active key : String) (rt : SessionRuntime) (old : Option SessionRuntime)
    → ((active ==ₛ "") || (active ==ₛ key) || running old) ≡ true
    → (is_finished rt.session.summary && (active ==ₛ key)) ≡ false
    → rt.session.status ≡ (if is_finished rt.session.summary then "completed" else "running")
    → ((active ==ₛ "") || running (if key ==ₛ active then some rt else old)) ≡ true
still_active active key rt old h f g = elim (Bool-cases (key ==ₛ active)) [
  | inl e ↦
      rw e (status_running active key rt.session.status (is_finished rt.session.summary) f g e)
  | inr e ↦ rw e (ground (arith, e, h, eq_iff key active, eq_iff active key))
]

module _ (evaluators : Evaluators) where
  kept-rebuilt :
      (now key : String) (rt : SessionRuntime)
      → rt.session.id ≡ key
      → kept key (some (rebuild_session evaluators now rt)) ≡ true
  kept-rebuilt now key rt named =
      kept_by (rebuild_session evaluators now rt) key (rebuild_session-id evaluators now rt ∙ named)
        (rebuild_session-status evaluators now rt) (rebuild_session-current_step evaluators now rt)

  pub rebuild_in-IsConsistent :
      (now key : String) (rt : SessionRuntime) (m : Manager)
      → rt.session.id ≡ key
      → IsPrepared key m
      → IsConsistent (rebuild_in evaluators now key rt m)
  unfolding rebuild_in
  rebuild_in-IsConsistent now key rt m named (listed, keeps, active) = (
    λ k. ground (arith, listed k, lookup-put key k rt' m.sessions),
    λ k. ground (
      arith,
      keeps k,
      lookup-put key k rt' m.sessions,
      kept-rebuilt now key rt named,
      eq_iff key k,
    ),
    elim (Bool-cases (is_finished rt'.session.summary && (m.active_id ==ₛ rt'.session.id))) [
      | inl e ↦ rw e refl
      | inr e ↦
          rw (e, lookup-put key m.active_id rt' m.sessions)
            (still_active m.active_id key rt' (lookup m.active_id m.sessions) active
              (rw⁻¹ (rebuild_session-id evaluators now rt ∙ named) e)
              (rebuild_session-status evaluators now rt))
    ],
  )
    where
      rt' : SessionRuntime
      rt' = rebuild_session evaluators now rt

  -- a rebuild of a stored session, for which nothing else has changed
  pub rebuild_stored :
      (now key : String) (old rt : SessionRuntime) (m : Manager)
      → lookup key m.sessions ≡ some old
      → rt.session.id ≡ old.session.id
      → IsConsistent m
      → IsConsistent (rebuild_in evaluators now key rt m)
  rebuild_stored now key old rt m e named (listed, keeps, active) =
      rebuild_in-IsConsistent now key rt m
        (named ∙ kept-id key old (sym (ap (kept key) e) ∙ keeps key))
        (λ k. ground (arith, listed k, e, eq_iff key k), keeps, ground (arith, active))
