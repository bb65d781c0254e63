-- ===== src/Correctness/Types.antt =====
-- The data of a correctness session (correctness/types.go) and the state of the Manager
-- (correctness/manager.go). A pointer that stands in a map is the value; an evaluator
-- (correctness/eval.go) is a function from a session and a case to a CaseEvaluation.
use ocpi_mock_hub.Prelude.{
  ℕ, String, Option, none, some, List, [], Dict, Bool, true, false, ◌≡◌, refl,
}
use ocpi_mock_hub.Seed.{Seed}

pub record ScenarioSource : Type 0 where
  pub sheet : String
  pub case_ids : List String

pub record NormativeSource : Type 0 where
  pub id : String
  pub reference : String
  pub title : String

pub record DeferredScenario : Type 0 where
  pub id : String
  pub title : String
  pub reason : String
  pub scenario : List ScenarioSource
  pub normative : List NormativeSource

pub record CheckpointDefinition : Type 0 where
  pub id : String
  pub prompt : String
  pub placeholder : String

pub record ActionDefinition : Type 0 where
  pub id : String
  pub group : String
  pub title : String
  pub description : String
  pub kind : String

pub record CaseDefinition : Type 0 where
  pub id : String
  pub group : String
  pub title : String
  pub description : String
  pub evaluator : String
  pub action_ids : List String
  pub requires : List String
  pub checkpoints : List CheckpointDefinition
  pub scenario_source : List ScenarioSource
  pub normative_source : List NormativeSource
  pub compatibility_profile : String

pub record SuiteDefinition : Type 0 where
  pub id : String
  pub name : String
  pub description : String
  pub actions : List ActionDefinition
  pub cases : List CaseDefinition
  pub deferred : List DeferredScenario

pub record SessionConfig : Type 0 where
  pub suite_id : String
  pub name : String
  pub peer_versions_url : String
  pub peer_token : String

pub record SessionPeerEndpoint : Type 0 where
  pub identifier : String
  pub role : String
  pub url : String

pub record SessionPeerState : Type 0 where
  pub version_detail_url : String
  pub credentials_url : String
  pub country_code : String
  pub party_id : String
  pub endpoints : List SessionPeerEndpoint

pub record TrafficEvent : Type 0 where
  pub id : String
  pub session_id : String
  pub action_id : String
  pub direction : String
  pub method : String
  pub url : String
  pub path : String
  pub raw_query : String
  pub request_headers : Dict String
  pub request_body : String
  pub response_status : ℕ
  pub response_headers : Dict String
  pub response_body : String
  pub duration_ms : ℕ
  pub started_at : String

pub record CheckpointState : Type 0 where
  pub id : String
  pub prompt : String
  pub placeholder : String
  pub answer : String
  pub notes : String
  pub status : String
  pub updated_at : String

pub record ActionState : Type 0 where
  pub id : String
  pub group : String
  pub title : String
  pub description : String
  pub kind : String
  pub status : String
  pub last_run_at : String
  pub last_error : String
  pub output : Dict String
  pub event_anchor : ℕ

pub record CaseResult : Type 0 where
  pub id : String
  pub group : String
  pub title : String
  pub description : String
  pub status : String
  pub messages : List String
  pub evidence_event_ids : List String
  pub checkpoints : List CheckpointState
  pub updated_at : String

pub record SessionSummary : Type 0 where
  pub total_cases : ℕ
  pub passed_cases : ℕ
  pub failed_cases : ℕ
  pub pending_cases : ℕ
  pub manual_cases : ℕ
  pub blocked_cases : ℕ
  pub completion_rate : ℕ

pub record SessionStep : Type 0 where
  pub title : String
  pub description : String
  pub action_id : String
  pub case_id : String

pub record TestSession : Type 0 where
  pub id : String
  pub suite_id : String
  pub suite_name : String
  pub status : String
  pub created_at : String
  pub updated_at : String
  pub completed_at : String
  pub config : SessionConfig
  pub peer : SessionPeerState
  pub summary : SessionSummary
  pub current_step : SessionStep
  pub actions : List ActionState
  pub cases : List CaseResult
  pub deferred : List DeferredScenario
  pub event_count : ℕ
  pub recent_events : List TrafficEvent

pub record SessionSnapshot : Type 0 where
  pub id : String
  pub suite_id : String
  pub suite_name : String
  pub status : String
  pub created_at : String
  pub updated_at : String
  pub completed_at : String
  pub summary : SessionSummary
  pub current_step : SessionStep

pub record CaseEvaluation : Type 0 where
  pub status : String
  pub messages : List String
  pub evidence_event_ids : List String

-- sessionRuntime; of its sandbox the seed, since the overlay store is the blob of the session's id
pub record SessionRuntime : Type 0 where
  pub suite : SuiteDefinition
  pub session : TestSession
  pub seed : Seed
  pub actions : Dict ActionState
  pub cases : Dict CaseResult
  pub events : List TrafficEvent

pub record Manager : Type 0 where
  pub base_seed : Seed
  pub suites : Dict SuiteDefinition
  pub sessions : Dict SessionRuntime
  pub order : List String
  pub active_id : String

-- builtinEvaluators
abbrev pub Evaluators : Type 0
Evaluators = String → Option (SessionRuntime → CaseDefinition → CaseEvaluation)

-- The errors of the Manager: its error variables, and those that fmt.Errorf makes.
pub data Failure : Type 0 where
  active_session_exists session_not_found unknown_suite unknown_action : Failure
  unknown_checkpoint bad_blob : Failure
  already_running finish_first run_first not_ready update_failed : String → Failure

pub data Result {ℓ} (A : Type ℓ) : Type ℓ where
  ok : A → Result A
  err : Failure → Result A

infixl 5 ◌>>=◌
abbrev pub ◌>>=◌ {ℓ κ} : {A : Type ℓ} {B : Type κ} → Result A → (A → Result B) → Result B
ok a >>= f = f a
err e >>= f = err e

abbrev pub or_fail {ℓ} : {A : Type ℓ} → Option A → Failure → Result A
or_fail none e = err e
or_fail (some a) e = ok a

abbrev pub is_ok {ℓ} : {A : Type ℓ} → Result A → Bool
is_ok (ok a) = true
is_ok (err e) = false

-- a lookup that fails ends the operation
pub bind_lookup {ℓ κ} :
    {A : Type ℓ} {B : Type κ} (P : Result B → Type 0) (o : Option A) (e : Failure)
    {f : A → Result B}
    → P (err e)
    → ((a : A) → o ≡ some a → P (f a))
    → P (or_fail o e >>= f)
bind_lookup P none e failed found = failed
bind_lookup P (some a) e failed found = found a refl

pub bind_result {ℓ κ} :
    {A : Type ℓ} {B : Type κ} (P : Result B → Type 0) (r : Result A) {f : A → Result B}
    → ((e : Failure) → P (err e))
    → ((a : A) → r ≡ ok a → P (f a))
    → P (r >>= f)
bind_result P (err e) failed found = failed e
bind_result P (ok a) failed found = found a refl

-- a lookup that fails without an error gives Go's zero value
abbrev pub no_action : ActionState
no_action = record {
  id = "";
  group = "";
  title = "";
  description = "";
  kind = "";
  status = "";
  last_run_at = "";
  last_error = "";
  output = [];
  event_anchor = 0;
}

abbrev pub no_case : CaseResult
no_case = record {
  id = "";
  group = "";
  title = "";
  description = "";
  status = "";
  messages = [];
  evidence_event_ids = [];
  checkpoints = [];
  updated_at = "";
}

abbrev pub no_step : SessionStep
no_step = record { title = ""; description = ""; action_id = ""; case_id = "" }

abbrev pub no_summary : SessionSummary
no_summary = record {
  total_cases = 0;
  passed_cases = 0;
  failed_cases = 0;
  pending_cases = 0;
  manual_cases = 0;
  blocked_cases = 0;
  completion_rate = 0;
}

abbrev pub no_peer : SessionPeerState
no_peer = record {
  version_detail_url = "";
  credentials_url = "";
  country_code = "";
  party_id = "";
  endpoints = [];
}
