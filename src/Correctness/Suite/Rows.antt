-- ===== src/Correctness/Suite/Rows.antt =====
-- The rows of the tables of correctness/definitions.go: composite literals with all fields in order.
use ocpi_mock_hub.Prelude.{String, List}
use ocpi_mock_hub.Correctness.Types.{
  ScenarioSource, NormativeSource, DeferredScenario, CheckpointDefinition, ActionDefinition,
  CaseDefinition,
}

abbrev pub action : String → String → String → String → String → ActionDefinition
action id group title description kind = record {
  id = id;
  group = group;
  title = title;
  description = description;
  kind = kind;
}

abbrev pub scenario : String → List String → ScenarioSource
scenario sheet case_ids = record { sheet = sheet; case_ids = case_ids }

abbrev pub normative : String → String → String → NormativeSource
normative id reference title = record { id = id; reference = reference; title = title }

abbrev pub checkpoint : String → String → String → CheckpointDefinition
checkpoint id prompt placeholder = record { id = id; prompt = prompt; placeholder = placeholder }

-- no case of the source has a compatibility profile
abbrev pub case_row :
    String
    → String
    → String
    → String
    → String
    → List String
    → List String
    → List CheckpointDefinition
    → List ScenarioSource
    → List NormativeSource
    → CaseDefinition
case_row id group title description evaluator action_ids requires checkpoints scenario normative =
    record {
      id = id;
      group = group;
      title = title;
      description = description;
      evaluator = evaluator;
      action_ids = action_ids;
      requires = requires;
      checkpoints = checkpoints;
      scenario_source = scenario;
      normative_source = normative;
      compatibility_profile = "";
    }

abbrev pub deferred :
    String → String → String → List ScenarioSource → List NormativeSource → DeferredScenario
deferred id title reason scenario normative = record {
  id = id;
  title = title;
  reason = reason;
  scenario = scenario;
  normative = normative;
}
