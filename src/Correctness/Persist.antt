-- ===== src/Correctness/Persist.antt =====
-- The manager's blob (correctness/manager.go): serializeStateLocked, decodeManagerState,
-- applyStateLocked and withStateMutationLocked. Every method loads the manager from the blob first,
-- so that the blob is the state. encoding/json is a parameter.
pub mod Order
pub mod RoundTrip
pub mod Complete
pub mod Whole
pub mod Anchors
pub mod Refines
use ocpi_mock_hub.Prelude.{
  ℕ, String, Option, none, some, List, [], ◌∷◌, Bool, true, false, ◌&&◌, ◌||◌, not, ◌==ₛ◌,
  if◌then◌else◌, map, filter, is_some, or_else, has, Dict, lookup, put, ◌≡◌, ◌++◌ as ◌++ₗ◌,
}
use Prim.Native.Nat.{Ordering}
use Prim.Native.String.{compare}
use ocpi_mock_hub.Seed.{Seed}
use ocpi_mock_hub.Correctness.Types.{
  SuiteDefinition, CaseDefinition, ActionDefinition, TestSession, ActionState, CaseResult,
  TrafficEvent, SessionRuntime, Manager, Failure, Result, ok, err, bad_blob,
}
use ocpi_mock_hub.Correctness.Manager.{idle_action, pending_case}

-- persistedActionState has the members of ActionState, the anchor included
pub record PersistedSession : Type 0 where
  pub suite_id : String
  pub session : TestSession
  pub seed : Option Seed
  pub actions : Dict ActionState
  pub cases : Dict CaseResult
  pub events : List TrafficEvent

pub record PersistedManager : Type 0 where
  pub sessions : Dict PersistedSession
  pub order : List String
  pub active_id : String

module _ {ℓ κ} {A : Type ℓ} {B : Type κ} where
  unfoldable pub map_values : (A → B) → Dict A → Dict B
  map_values f [] = []
  map_values f ((k, a) ∷ m) = (k, f a) ∷ map_values f m

unfoldable pub serialize_session : SessionRuntime → PersistedSession
serialize_session rt = record {
  suite_id = rt.suite.id;
  session = rt.session;
  seed = some rt.seed;
  actions = rt.actions;
  cases = rt.cases;
  events = rt.events;
}

unfoldable pub serialize_state : Manager → PersistedManager
unfolding map_values serialize_session
serialize_state m = record {
  sessions = map_values serialize_session m.sessions;
  order = m.order;
  active_id = m.active_id;
}

-- the tag "-" of EventAnchor: the actions that a session lists lose their anchors in JSON
unfoldable pub without_anchor : ActionState → ActionState
without_anchor a = record a { event_anchor = 0 }

unfoldable pub without_anchors : TestSession → TestSession
unfolding without_anchor
without_anchors s = record s { actions = map without_anchor s.actions }

unfoldable pub json_session : PersistedSession → PersistedSession
unfolding without_anchors
json_session p = record p { session = without_anchors p.session }

unfoldable pub json_manager : PersistedManager → PersistedManager
unfolding map_values json_session
json_manager p = record p { sessions = map_values json_session p.sessions }

-- json.Marshal and json.Unmarshal of the state, with the bytes that they work on: `nothing` is the nil
-- slice, and `is_blank` tells an empty one.
pub record Codec : Type 1 where
  pub Blob : Type 0
  pub nothing : Blob
  pub is_blank : Blob → Bool
  pub marshal : PersistedManager → Blob
  pub unmarshal : Blob → Option PersistedManager

-- The nil slice is empty, what json.Marshal returns is not, and json.Unmarshal of it gives the members
-- that JSON has.
abbrev pub IsFaithful : Codec → Type 0
IsFaithful codec =
    (codec.is_blank codec.nothing ≡ true)
    × ((p : PersistedManager)
        → (codec.is_blank (codec.marshal p) ≡ false)
          × (codec.unmarshal (codec.marshal p) ≡ some (json_manager p)))

abbrev pub empty_state : PersistedManager
empty_state = record { sessions = []; order = []; active_id = "" }

unfoldable pub decode_manager_state : (codec : Codec) → codec.Blob → Option PersistedManager
decode_manager_state codec raw =
    if codec.is_blank raw then some empty_state else codec.unmarshal raw

-- the actions by id, for `len(actions) == 0`
unfoldable pub actions_by_id : List ActionState → Dict ActionState → Dict ActionState
actions_by_id [] m = m
actions_by_id (a ∷ rest) m = actions_by_id rest (put a.id a m)

unfoldable pub cases_by_id : List CaseResult → Dict CaseResult → Dict CaseResult
cases_by_id [] m = m
cases_by_id (c ∷ rest) m = cases_by_id rest (put c.id c m)

module _ {ℓ} {A : Type ℓ} where
  unfoldable pub or_default : Dict A → Dict A → Dict A
  or_default [] d = d
  or_default (e ∷ m) d = e ∷ m

unfoldable pub fill_actions : List ActionDefinition → Dict ActionState → Dict ActionState
unfolding idle_action
fill_actions [] m = m
fill_actions (def ∷ defs) m =
    fill_actions defs (if is_some (lookup def.id m) then m else put def.id (idle_action def) m)

unfoldable pub fill_cases : List CaseDefinition → Dict CaseResult → Dict CaseResult
unfolding pending_case
fill_cases [] m = m
fill_cases (def ∷ defs) m =
    fill_cases defs (if is_some (lookup def.id m) then m else put def.id (pending_case def) m)

unfoldable pub materialize_action_states : PersistedSession → SuiteDefinition → Dict ActionState
unfolding actions_by_id or_default fill_actions
materialize_action_states p suite =
    fill_actions suite.actions (or_default p.actions (actions_by_id p.session.actions []))

unfoldable pub materialize_case_results : PersistedSession → SuiteDefinition → Dict CaseResult
unfolding cases_by_id or_default fill_cases
materialize_case_results p suite =
    fill_cases suite.cases (or_default p.cases (cases_by_id p.session.cases []))

-- slices.Sort of strings
unfoldable pub insert_sorted : String → List String → List String
insert_sorted s [] = s ∷ []
insert_sorted s (t ∷ ts) =
    let rest = insert_sorted s ts in elim (compare s t) [ Ordering.gt ↦ t ∷ rest | _ ↦ s ∷ t ∷ ts ]

unfoldable pub sorted : List String → List String
unfolding insert_sorted
sorted [] = []
sorted (s ∷ ts) = insert_sorted s (sorted ts)

module _ {ℓ} {A : Type ℓ} where
  unfoldable pub keys : Dict A → List String
  keys [] = []
  keys ((k, a) ∷ m) = k ∷ keys m

  -- the loop of normalizeSessionOrder, with what it has seen
  unfoldable pub known_once : Dict A → List String → List String → List String
  known_once m seen [] = []
  known_once m seen (id ∷ ids) =
      let skip = has id seen || not (is_some (lookup id m)) in
      let rest = known_once m (if skip then seen else id ∷ seen) ids in
      if skip then rest else id ∷ rest

  unfoldable pub normalize_session_order : List String → Dict A → List String
  unfolding known_once keys sorted has
  normalize_session_order order m =
      let normalized = known_once m [] order in
      normalized ++ₗ sorted (filter (λ id. not (has id normalized)) (keys m))

abbrev pub empty_suite : SuiteDefinition
empty_suite = record {
  id = "";
  name = "";
  description = "";
  actions = [];
  cases = [];
  deferred = [];
}

unfoldable pub suite_of : Dict SuiteDefinition → PersistedSession → SuiteDefinition
suite_of suites p =
    or_else (lookup (if p.suite_id ==ₛ "" then p.session.suite_id else p.suite_id) suites)
      empty_suite

unfoldable pub load_session : Seed → Dict SuiteDefinition → PersistedSession → SessionRuntime
unfolding suite_of materialize_action_states materialize_case_results
load_session base suites p =
    let suite = suite_of suites p in
    record {
      suite = suite;
      session = record p.session {
        suite_name =
            if (p.session.suite_name ==ₛ "") && not (suite.name ==ₛ "")
            then suite.name
            else p.session.suite_name;
      };
      seed = or_else p.seed base;
      actions = materialize_action_states p suite;
      cases = materialize_case_results p suite;
      events = p.events;
    }

unfoldable pub apply_state : Seed → Dict SuiteDefinition → PersistedManager → Manager
unfolding map_values load_session normalize_session_order
apply_state base suites p =
    let sessions = map_values (load_session base suites) p.sessions in
    record {
      base_seed = base;
      suites = suites;
      sessions = sessions;
      order = normalize_session_order p.order sessions;
      active_id = if is_some (lookup p.active_id sessions) then p.active_id else "";
    }

-- what withStateMutationLocked writes: nothing where the function fails
unfoldable pub written {ℓ} :
    {A : Type ℓ} → (codec : Codec) → codec.Blob → Result (Manager × A) → codec.Blob × Result A
unfolding serialize_state
written codec raw (err e) = (raw, err e)
written codec raw (ok (m, a)) = (codec.marshal (serialize_state m), ok a)

-- the callback of UpdateBlob, on the decoded blob
unfoldable pub mutated {ℓ} :
    {A : Type ℓ}
    → (codec : Codec) → Seed
    → Dict SuiteDefinition
    → (Manager → Result (Manager × A))
    → codec.Blob
    → Option PersistedManager
    → codec.Blob × Result A
unfolding apply_state written
mutated codec base suites fn raw none = (raw, err bad_blob)
mutated codec base suites fn raw (some p) = written codec raw (fn (apply_state base suites p))

-- withStateMutationLocked: the blob after the call, and what the call returns
unfoldable pub with_state_mutation {ℓ} :
    {A : Type ℓ}
    → (codec : Codec) → Seed
    → Dict SuiteDefinition
    → (Manager → Result (Manager × A))
    → codec.Blob
    → codec.Blob × Result A
unfolding decode_manager_state mutated
with_state_mutation codec base suites fn raw =
    mutated codec base suites fn raw (decode_manager_state codec raw)
