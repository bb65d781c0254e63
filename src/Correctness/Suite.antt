-- ===== src/Correctness/Suite.antt =====
-- BuiltinSuites and builtinOCPIEMSPSuite (correctness/definitions.go): the suite that NewManager
-- registers.
pub mod Rows
mod Actions
mod Cases
mod LaterCases
mod Deferred
pub mod Coherent
pub mod Backed
pub mod Reachable
use ocpi_mock_hub.Prelude.{String, List, [], ◌∷◌, ◌++◌, Dict, put}
use ocpi_mock_hub.Seed.{Seed}
use ocpi_mock_hub.Correctness.Types.{SuiteDefinition, Manager}
use ocpi_mock_hub.Correctness.Suite.Actions.{builtin_actions}
use ocpi_mock_hub.Correctness.Suite.Cases.{first_cases}
use ocpi_mock_hub.Correctness.Suite.LaterCases.{later_cases}
use ocpi_mock_hub.Correctness.Suite.Deferred.{deferred_scenarios}

abbrev pub default_suite_id : String
default_suite_id = "ocpi-2-2-1-emsp-correctness"

unfoldable pub builtin_suite : SuiteDefinition
builtin_suite = record {
  id = default_suite_id;
  name = "OCPI 2.2.1 eMSP Correctness Tests";
  description =
      "Interactive OCPI eMSP implementation checks built from scenario prompts and official OCPI 2.2.1 rules.";
  actions = builtin_actions;
  cases = first_cases ++ later_cases;
  deferred = deferred_scenarios;
}

unfoldable pub builtin_suites : List SuiteDefinition
unfolding builtin_suite
builtin_suites = builtin_suite ∷ []

-- the loop of NewManager
unfoldable pub suite_map : List SuiteDefinition → Dict SuiteDefinition → Dict SuiteDefinition
suite_map [] m = m
suite_map (suite ∷ suites) m = suite_map suites (put suite.id suite m)
