-- ===== src/Correctness/Persist/RoundTrip.antt =====
-- Writing the manager's blob and reading it back (correctness/manager.go).
use ocpi_mock_hub.Prelude.{
  String, ◌≡◌, refl, sym, ap, subst, ◌∙◌, inl, inr, Option, none, some, List, [], ◌∷◌, Bool, true,
  false, ◌||◌, ◌==ₛ◌, if◌then◌else◌, Dict, lookup, put, without, all, is_some, or_else, Bool-cases,
  eq_iff, arith,
}
use ocpi_mock_hub.Seed.{Seed}
use ocpi_mock_hub.Correctness.Types.{
  SuiteDefinition, ActionDefinition, CaseDefinition, ActionState, CaseResult, SessionRuntime,
  Manager,
}
use ocpi_mock_hub.Correctness.Manager.Invariant.{IsConsistent, stored, running}
use ocpi_mock_hub.Correctness.Persist.Order.{bit, normalize_session_order_lem}
use ocpi_mock_hub.Correctness.Persist.{
  map_values, serialize_session, serialize_state, json_session, json_manager, without_anchors,
  or_default, fill_actions, fill_cases, materialize_action_states, materialize_case_results,
  suite_of, load_session, apply_state,
}

-- every entry of a map
pub data Every {A : Type 0} (P : A → Type 0) : Dict A → Type 0 where
  end : Every P []
  also : {k : String} {a : A} {m : Dict A} → P a → Every P m → Every P ((k, a) ∷ m)

module _ {A : Type 0} (P : A → Type 0) where
  pub Every-without : (k : String) (m : Dict A) → Every P m → Every P (without k m)
  unfolding without
  Every-without k [] end = end
  Every-without k ((j, a) ∷ m) (also p ps) = elim (Bool-cases (j ==ₛ k)) [
    | inl e ↦ rw e (Every-without k m ps)
    | inr e ↦ rw e (also p (Every-without k m ps))
  ]

  pub Every-put : (k : String) (a : A) (m : Dict A) → P a → Every P m → Every P (put k a m)
  unfolding put
  Every-put k a m p ps = also p (Every-without k m ps)

  pub Every-lookup : (k : String) (m : Dict A) (a : A) → Every P m → lookup k m ≡ some a → P a
  unfolding lookup
  Every-lookup k [] a end e = absurd (ground (arith, e))
  Every-lookup k ((j, b) ∷ m) a (also p ps) e = elim (Bool-cases (j ==ₛ k)) [
    | inl t ↦ subst P (ap (λ o. or_else o b) (rw t at e)) p
    | inr t ↦ Every-lookup k m a ps (rw t at e)
  ]

-- the suite is the one registered under its id, and each of its actions and cases has a state
abbrev pub IsComplete : Dict SuiteDefinition → SessionRuntime → Type 0
IsComplete suites rt =
    (lookup rt.suite.id suites ≡ some rt.suite)
    × ((rt.session.suite_name ==ₛ "") ≡ false)
    × (all (λ d. is_some (lookup d.id rt.actions)) rt.suite.actions ≡ true)
    × (all (λ d. is_some (lookup d.id rt.cases)) rt.suite.cases ≡ true)

abbrev is_cons {ℓ} : {A : Type ℓ} → List A → Bool
is_cons [] = false
is_cons (x ∷ xs) = true

-- a suite as it is registered: under its own id, with actions and cases
abbrev pub IsSuite : SuiteDefinition → Type 0
IsSuite suite =
    ((suite.id ==ₛ "") ≡ false)
    × ((suite.name ==ₛ "") ≡ false)
    × (is_cons suite.actions ≡ true)
    × (is_cons suite.cases ≡ true)

abbrev pub IsRegistry : Dict SuiteDefinition → Type 0
IsRegistry suites =
    (k : String) (suite : SuiteDefinition)
    → lookup k suites ≡ some suite
    → (suite.id ≡ k) × IsSuite suite

fill_actions-full :
    (defs : List ActionDefinition) (m : Dict ActionState)
    → all (λ d. is_some (lookup d.id m)) defs ≡ true
    → fill_actions defs m ≡ m
unfolding fill_actions
fill_actions-full [] m h = refl
fill_actions-full (def ∷ defs) m h =
    let first : is_some (lookup def.id m) ≡ true = ground (arith, h) in
    rw first (fill_actions-full defs m (rw first at h))

fill_cases-full :
    (defs : List CaseDefinition) (m : Dict CaseResult)
    → all (λ d. is_some (lookup d.id m)) defs ≡ true
    → fill_cases defs m ≡ m
unfolding fill_cases
fill_cases-full [] m h = refl
fill_cases-full (def ∷ defs) m h =
    let first : is_some (lookup def.id m) ≡ true = ground (arith, h) in
    rw first (fill_cases-full defs m (rw first at h))

or_default_cons :
    {A : Type 0} (m d : Dict A) (k : String) → is_some (lookup k m) ≡ true → or_default m d ≡ m
unfolding or_default lookup
or_default_cons [] d k h = absurd (ground (arith, h))
or_default_cons (e ∷ m) d k h = refl

-- a session as it is read back: the anchors of the actions it lists are gone
unfoldable pub unanchored : SessionRuntime → SessionRuntime
unfolding without_anchors
unanchored rt = record rt { session = without_anchors rt.session }

filled_actions :
    (defs : List ActionDefinition) (m d : Dict ActionState)
    → is_cons defs ≡ true
    → all (λ x. is_some (lookup x.id m)) defs ≡ true
    → fill_actions defs (or_default m d) ≡ m
filled_actions [] m d c h = absurd (ground (arith, c))
filled_actions (def ∷ defs) m d c h =
    let first : is_some (lookup def.id m) ≡ true = ground (arith, h) in
    rw (or_default_cons m d def.id first) (fill_actions-full (def ∷ defs) m h)

filled_cases :
    (defs : List CaseDefinition) (m d : Dict CaseResult)
    → is_cons defs ≡ true
    → all (λ x. is_some (lookup x.id m)) defs ≡ true
    → fill_cases defs (or_default m d) ≡ m
filled_cases [] m d c h = absurd (ground (arith, c))
filled_cases (def ∷ defs) m d c h =
    let first : is_some (lookup def.id m) ≡ true = ground (arith, h) in
    rw (or_default_cons m d def.id first) (fill_cases-full (def ∷ defs) m h)

suite_of_lem :
    (suites : Dict SuiteDefinition) (rt : SessionRuntime)
    → (rt.suite.id ==ₛ "") ≡ false
    → lookup rt.suite.id suites ≡ some rt.suite
    → suite_of suites (json_session (serialize_session rt)) ≡ rt.suite
unfolding suite_of json_session serialize_session
suite_of_lem suites rt named found = rw (named, found) refl

load_session-serialize :
    (base : Seed) (suites : Dict SuiteDefinition) (rt : SessionRuntime)
    → IsSuite rt.suite
    → IsComplete suites rt
    → load_session base suites (json_session (serialize_session rt)) ≡ unanchored rt
unfolding load_session unanchored materialize_action_states materialize_case_results json_session
    serialize_session without_anchors
load_session-serialize base suites rt (named, titled, actions, cases) (found, called, acts, cs) =
    rw
      (
        suite_of_lem suites rt named found,
        filled_actions rt.suite.actions rt.actions _ actions acts,
        filled_cases rt.suite.cases rt.cases _ cases cs,
        called,
      )
      refl

module _ {A B : Type 0} (f : A → B) where
  pub is_some-map_values :
      (k : String) (m : Dict A) → is_some (lookup k (map_values f m)) ≡ is_some (lookup k m)
  unfolding map_values lookup
  is_some-map_values k [] = refl
  is_some-map_values k ((j, a) ∷ m) = elim (Bool-cases (j ==ₛ k)) [
    | inl e ↦ rw e refl
    | inr e ↦ rw e (is_some-map_values k m)
  ]

-- the manager as it is read back
abbrev pub reloaded : Seed → Dict SuiteDefinition → Manager → Manager
reloaded base suites m = record {
  base_seed = base;
  suites = suites;
  sessions = map_values unanchored m.sessions;
  order = m.order;
  active_id = m.active_id;
}

stored-bit : (o : Option SessionRuntime) → stored o ≡ bit (is_some o)
stored-bit none = refl
stored-bit (some rt) = refl

still_stored :
    (active : String) (o : Option SessionRuntime) (b : Bool)
    → b ≡ is_some o
    → ((active ==ₛ "") || running o) ≡ true
    → (if b then active else "") ≡ active
still_stored active none b e h = ground (arith, e, h, eq_iff active "")
still_stored active (some rt) b e h = rw e refl

module _ (base : Seed) (suites : Dict SuiteDefinition) (registry : IsRegistry suites) where
  load_sessions-serialize :
      (sessions : Dict SessionRuntime)
      → Every (IsComplete suites) sessions
      → map_values
          (load_session base suites)
          (map_values json_session (map_values serialize_session sessions))
        ≡ map_values unanchored sessions
  unfolding map_values
  load_sessions-serialize [] end = refl
  load_sessions-serialize ((k, rt) ∷ rest) (also p ps) =
      rw
        (
          load_session-serialize base suites rt (registry rt.suite.id rt.suite p.0).1 p,
          load_sessions-serialize rest ps,
        )
        refl

  -- What serializeStateLocked writes, applyStateLocked reads back.
  pub apply_state-serialize :
      (m : Manager)
      → Every (IsComplete suites) m.sessions
      → IsConsistent m
      → apply_state base suites (json_manager (serialize_state m)) ≡ reloaded base suites m
  unfolding apply_state json_manager serialize_state
  apply_state-serialize m whole (listed, keeps, active) =
      rw
        (
          load_sessions-serialize m.sessions whole,
          normalize_session_order_lem (map_values unanchored m.sessions) m.order (λ k.
              listed k
              ∙ stored-bit (lookup k m.sessions)
              ∙ ap bit (sym (is_some-map_values unanchored k m.sessions))),
          still_stored m.active_id (lookup m.active_id m.sessions)
              (is_some (lookup m.active_id (map_values unanchored m.sessions)))
              (is_some-map_values unanchored m.active_id m.sessions) active,
        )
        refl
