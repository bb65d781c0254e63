-- ===== src/Correctness/NextStep/Order.antt =====
-- The order in which nextStep proposes the actions of a suite.
use ocpi_mock_hub.Prelude.{
  ◌≡◌, refl, sym, ap, ◌∙◌, inl, inr, Option, none, some, List, [], ◌∷◌, ◌++◌, Bool, true, false,
  ◌&&◌, ◌||◌, not, ◌==ₛ◌, if◌then◌else◌, or_else, is_some, all, Dict, lookup, Bool-cases, if_cases,
  or_else-cases, arith,
}
use ocpi_mock_hub.Correctness.Types.{
  SuiteDefinition, CaseDefinition, TestSession, SessionStep, ActionState, CaseResult,
  CheckpointState, no_case,
}
use ocpi_mock_hub.Correctness.NextStep.{
  open_checkpoint, message_step, open_action, keep_first, step_loop, next_step, action_map,
  case_map,
}

-- the result of a case, and whether nextStep passes over it
abbrev pub result_of : Dict CaseResult → CaseDefinition → CaseResult
result_of cases def = or_else (lookup def.id cases) no_case

abbrev pub is_passed_over : CaseResult → Bool
is_passed_over r =
    (r.status ==ₛ "passed")
    || (r.status ==ₛ "failed")
    || (r.status ==ₛ "blocked")
    || ((r.status ==ₛ "manual") && not (is_some (open_checkpoint r r.checkpoints)))

-- Every case before `def` is passed over, and `def` is one of the loop's last branch.
abbrev pub IsAt :
    Dict CaseResult → List CaseDefinition → CaseDefinition → List CaseDefinition → Type 0
IsAt cases defs def before =
    (after : List CaseDefinition) × (defs ≡ before ++ def ∷ after)
    × (all (λ d. is_passed_over (result_of cases d)) before ≡ true)

abbrev pub IsActionAt :
    Dict ActionState → Dict CaseResult → List CaseDefinition → SessionStep → Type 0
IsActionAt actions cases defs step =
    (before : List CaseDefinition) × (def : CaseDefinition) × IsAt cases defs def before
    × (open_action def actions def.action_ids ≡ some step)

abbrev no_action_in : Option SessionStep → Bool
no_action_in none = true
no_action_in (some step) = step.action_id ==ₛ ""

no_action-open_checkpoint :
    (r : CaseResult) (cps : List CheckpointState) → no_action_in (open_checkpoint r cps) ≡ true
unfolding open_checkpoint
no_action-open_checkpoint r [] = refl
no_action-open_checkpoint r (cp ∷ cps) = elim (Bool-cases (cp.status ==ₛ "answered")) [
  | inl e ↦ rw e (no_action-open_checkpoint r cps)
  | inr e ↦ rw e refl
]

no_action-keep_first :
    (o : Option SessionStep) (r : CaseResult)
    → no_action_in o ≡ true
    → no_action_in (keep_first o (message_step r)) ≡ true
unfolding keep_first message_step
no_action-keep_first none r h = refl
no_action-keep_first (some step) r h = h

IsActionAt-cons :
    (actions : Dict ActionState) (cases : Dict CaseResult) (def : CaseDefinition)
    (defs : List CaseDefinition) (step : SessionStep)
    → is_passed_over (result_of cases def) ≡ true
    → IsActionAt actions cases defs step
    → IsActionAt actions cases (def ∷ defs) step
IsActionAt-cons actions cases def defs step over (before, d, (after, e, h), o) =
    (def ∷ before, d, (after, ap (λ l. def ∷ l) e, rw (over, h) refl), o)

unnamed :
    (step : SessionStep) → (step.action_id ==ₛ "") ≡ true → (step.action_id ==ₛ "") ≡ false → ⊥
unnamed step e f = ground (arith, e, f)

-- a proposal without an action is none of the last branch
step_loop-IsActionAt :
    (actions : Dict ActionState) (cases : Dict CaseResult) (blocked : Option SessionStep)
    (defs : List CaseDefinition)
    → no_action_in blocked ≡ true
    → (let step = step_loop actions cases blocked defs in step.action_id ==ₛ "") ≡ false
    → IsActionAt actions cases defs (step_loop actions cases blocked defs)
unfolding step_loop
step_loop-IsActionAt actions cases none [] h named = absurd (ground (arith, named))
step_loop-IsActionAt actions cases (some step) [] h named = absurd (ground (arith, h, named))
step_loop-IsActionAt actions cases blocked (def ∷ defs) h named =
    let go = pass_over _ (step_loop-IsActionAt actions cases kept defs kept_lem) in
    (if_cases P (r.status ==ₛ "passed") (λ e. go (ground (arith, e)))
        λ e.
          if_cases P (r.status ==ₛ "manual")
            (λ manual.
              or_else-cases P (open_checkpoint r r.checkpoints)
                (λ absent. go (rw (manual, absent) (ground arith)))
                (λ cp found named'. absurd (
                  unnamed cp
                    (sym (ap no_action_in found) ∙ no_action-open_checkpoint r r.checkpoints)
                    named')))
            λ e'.
              if_cases P ((r.status ==ₛ "failed") || (r.status ==ₛ "blocked"))
                (λ over. go (ground (arith, over)))
                λ e''.
                  or_else-cases P (open_action def actions def.action_ids)
                    (λ absent named'. absurd (unnamed (message_step r) refl named'))
                    (λ step found named'. ([], def, (defs, refl, refl), found)))
      named
  where
    r : CaseResult
    r = result_of cases def

    kept : Option SessionStep
    kept = if r.status ==ₛ "blocked" then keep_first blocked (message_step r) else blocked

    P : SessionStep → Type 0
    P step = (step.action_id ==ₛ "") ≡ false → IsActionAt actions cases (def ∷ defs) step

    kept_lem : no_action_in kept ≡ true
    kept_lem =
        if_cases (λ o. no_action_in o ≡ true) (r.status ==ₛ "blocked")
          (λ e. no_action-keep_first blocked r h) (λ e. h)

    pass_over :
        (step : SessionStep)
        → ((step.action_id ==ₛ "") ≡ false → IsActionAt actions cases defs step)
        → is_passed_over r ≡ true
        → P step
    pass_over step rest over named' = IsActionAt-cons actions cases def defs step over (rest named')

pub next_step-IsActionAt :
    (suite : SuiteDefinition) (session : TestSession)
    → ((next_step suite session).action_id ==ₛ "") ≡ false
    → IsActionAt
        (action_map session.actions [])
        (case_map session.cases [])
        suite.cases
        (next_step suite session)
unfolding next_step
next_step-IsActionAt suite session named = step_loop-IsActionAt _ _ none suite.cases refl named
