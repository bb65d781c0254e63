-- ===== src/Correctness/Suite/Coherent.antt =====
-- The built-in suite (correctness/definitions.go) and its evaluators (correctness/eval.go) together:
-- what a case that a rebuild (correctness/manager.go) reports as passed has behind it.
use ocpi_mock_hub.Prelude.{
  String, ◌≡◌, refl, ap, ◌∙◌, inl, inr, Option, none, some, List, [], ◌∷◌, Bool, true, false, ◌&&◌,
  not, ◌==ₛ◌, if_cases, all, has, Dict, lookup, arith, eq_iff, Bool-cases,
}
use mathlib.Core.Bool.{Bool-set}
use mathlib.Core.Logic.Or
use mathlib.Core.List.{Mem, mem-cons, not-mem-nil}
use ocpi_mock_hub.Auth.{Base64}
use ocpi_mock_hub.Overlay.{OverlayState}
use ocpi_mock_hub.Correctness.Types.{CaseDefinition, CaseResult, CaseEvaluation, SessionRuntime}
use ocpi_mock_hub.Correctness.Rebuild.{
  blocked_by, is_blocking, blocking_requirement, rebuilt_case, evaluation, blocked_result,
  evaluated_result,
}
use ocpi_mock_hub.Correctness.Eval.{Tools}
use ocpi_mock_hub.Correctness.Eval.Flows.Builtin.{
  Evaluator, evaluator_names, action_of, registered, builtin_evaluators,
}
use ocpi_mock_hub.Correctness.Eval.Verdicts.{SortKeeps, AreOwn, is_evidence, was_started}
use ocpi_mock_hub.Correctness.Eval.Verdicts.Builtin.{run_evaluator-IsVerdict}
use ocpi_mock_hub.Correctness.Suite.{builtin_suite}

-- the evaluator is registered, and waits for one of the case's actions
abbrev covers : Option Evaluator → List String → Bool
covers none ids = false
covers (some evaluator) ids = has (action_of evaluator) ids

abbrev is_named : String → Bool
is_named id = not (id ==ₛ "")

abbrev pub is_coherent : CaseDefinition → Bool
is_coherent def =
    covers (lookup def.evaluator evaluator_names) def.action_ids && all is_named def.requires

pub all-coherent : all is_coherent builtin_suite.cases ≡ true
unfolding builtin_suite lookup action_of has
all-coherent = refl

all-mem :
    (p : CaseDefinition → Bool) (d : CaseDefinition) (ds : List CaseDefinition)
    → all p ds ≡ true
    → Mem d ds
    → p d ≡ true
all-mem p d [] h m = absurd (not-mem-nil m)
all-mem p d (c ∷ cs) h m =
    Or.elim (Bool-set (p d) true) (mem-cons.0 m) (λ e. ap p e ∙ ground (arith, h))
      (all-mem p d cs (ground (arith, h)))

-- the name of what blocks is not empty
blocked_by-named :
    (dep : String) (o : Option CaseResult)
    → is_named dep ≡ true
    → is_blocking o ≡ true
    → (blocked_by dep o ==ₛ "") ≡ false
unfolding blocked_by is_blocking
blocked_by-named dep none h b = ground (arith, h)
blocked_by-named dep (some r) h b = ground (arith, h, b)

-- where nothing is reported to block, no named requirement does
not-blocking :
    (cases : Dict CaseResult) (deps : List String)
    → all is_named deps ≡ true
    → (blocking_requirement cases deps ==ₛ "") ≡ true
    → all (λ dep. not (is_blocking (lookup dep cases))) deps ≡ true
unfolding blocking_requirement
not-blocking cases [] h e = refl
not-blocking cases (dep ∷ deps) h e =
    let named = blocked_by-named dep (lookup dep cases) in
    let rest = not-blocking cases deps in
    elim (Bool-cases (is_blocking (lookup dep cases))) [
      | inl b ↦
          absurd (ground (arith, rw (b, blocking_requirement) at e, named (ground (arith, h)) b))
      | inr b ↦ rw b (rest (ground (arith, h)) (rw (b, blocking_requirement) at e))
    ]

-- what the result of a case that passed has behind it
abbrev pub IsEarned : SessionRuntime → CaseDefinition → CaseResult → Type 0
IsEarned rt def r =
    (all (λ dep. not (is_blocking (lookup dep rt.cases))) def.requires ≡ true)
    × (id : String) × (has id def.action_ids ≡ true)
    × (was_started (lookup id rt.actions) ≡ true)
    × (all (is_evidence rt id) r.evidence_event_ids ≡ true)

module _ (base64 : Base64) (tools : Tools) (overlays : Dict OverlayState) (keeps : SortKeeps tools)
    (rt : SessionRuntime) (own : AreOwn rt) (def : CaseDefinition) where
  -- what the evaluator of a covered case says
  abbrev IsSupported : CaseEvaluation → Type 0
  IsSupported v =
      (id : String) × (has id def.action_ids ≡ true)
      × (all (is_evidence rt id) v.evidence_event_ids ≡ true)
      × (v.status ==ₛ "passed" ≡ true → was_started (lookup id rt.actions) ≡ true)

  looked_up-IsSupported :
      (o : Option Evaluator)
      → covers o def.action_ids ≡ true
      → IsSupported (evaluation (λ name. registered base64 tools overlays o) rt def)
  unfolding evaluation registered
  looked_up-IsSupported none h = absurd (ground (arith, h))
  looked_up-IsSupported (some evaluator) h =
      let verdict = run_evaluator-IsVerdict base64 tools overlays keeps rt own def evaluator in
      (action_of evaluator, h, verdict.evidence, λ passed. verdict.started (ground (arith, passed)))

  evaluation-IsSupported :
      is_coherent def ≡ true
      → IsSupported (evaluation (builtin_evaluators base64 tools overlays) rt def)
  unfolding evaluation builtin_evaluators
  evaluation-IsSupported h =
      looked_up-IsSupported (lookup def.evaluator evaluator_names) (ground (arith, h))

  -- a case whose evaluator waits for one of its actions
  pub coherent-IsEarned :
      (now : String)
      → is_coherent def ≡ true
      → (rebuilt_case (builtin_evaluators base64 tools overlays) now rt def).status ≡ "passed"
      → IsEarned rt def (rebuilt_case (builtin_evaluators base64 tools overlays) now rt def)
  unfolding rebuilt_case evaluated_result blocked_result
  coherent-IsEarned now coherent =
      let (id, listed, evidence, started) = evaluation-IsSupported coherent in
      if_cases {A = CaseResult} (λ r. r.status ≡ "passed" → IsEarned rt def r)
        (blocking_requirement rt.cases def.requires ==ₛ "")
        (λ e passed. (
          not-blocking rt.cases def.requires (ground (arith, coherent)) e,
          id,
          listed,
          started ((eq_iff _ _).1 passed),
          evidence,
        ))
        (λ e passed. absurd (cc (passed)))

  -- Over libraries whose sort only permutes and a session whose actions stand under their own ids:
  -- where a rebuild reports a case of the built-in suite as passed, none of the cases that it
  -- requires is missing, pending, manual or blocked, and the case has an action that is neither
  -- idle nor failed, and in whose window all of its evidence was recorded.
  pub rebuilt_case-IsEarned :
      (now : String)
      → Mem def builtin_suite.cases
      → (rebuilt_case (builtin_evaluators base64 tools overlays) now rt def).status ≡ "passed"
      → IsEarned rt def (rebuilt_case (builtin_evaluators base64 tools overlays) now rt def)
  rebuilt_case-IsEarned now m =
      coherent-IsEarned now (all-mem is_coherent def builtin_suite.cases all-coherent m)
