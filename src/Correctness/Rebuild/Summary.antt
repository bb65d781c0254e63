-- ===== src/Correctness/Rebuild/Summary.antt =====
-- The summary of a rebuilt session: the counts of its cases, the rate of completion and the status.
use native.Mathlib.Nat.{le-div_iff_mul-le, div-lt_iff_lt-mul}
use ocpi_mock_hub.Prelude.{
  ℕ, ◌+◌, ◌*◌, ◌/◌, ◌≤◌, String, ◌≡◌, ◌≢◌, ◌↔◌, refl, sym, ap, ◌∙◌, inl, inr, List, [], ◌∷◌, suc,
  ◌==ₛ◌, if◌then◌else◌, length, arith, Bool-cases, if_cases, eq_iff,
}
use ocpi_mock_hub.Correctness.Types.{
  CaseDefinition, CaseResult, SessionSummary, SessionRuntime, Evaluators, no_summary,
}
use ocpi_mock_hub.Correctness.Rebuild.Session.{rebuild_cases-suite}
use ocpi_mock_hub.Correctness.Rebuild.{
  rebuild_cases, filled, closed, stepped, summarize, count_cases, count_case, completion_rate,
  is_finished, rebuild_session,
}

rate_bounds : (n t : ℕ) → n ≤ t → 1 ≤ t → (n * 100 / t ≤ 100) × ((n * 100 / t ≡ 100) ↔ (n ≡ t))
rate_bounds n t h pos =
    let low = le-div_iff_mul-le {k = t} {x = 100} {y = n * 100} (omega (arith, pos)) in
    let high =
      (div-lt_iff_lt-mul {k = t} {x = n * 100} {y = 101} (omega (arith, pos))).1
        (omega (arith, h, pos)) in
    (
      omega (arith, high),
      (
        λ e. omega (arith, h, low.0 (omega (arith, e))),
        λ e. omega (arith, high, low.1 (omega (arith, e))),
      ),
    )

abbrev pub counted : SessionSummary → ℕ
counted s = s.passed_cases + s.failed_cases + s.pending_cases + s.manual_cases + s.blocked_cases

-- what holds of the five ways to count a case
count_case-cases :
    (s : SessionSummary) (status : String) (P : SessionSummary → Type 0)
    → P (record s { passed_cases = s.passed_cases + 1 })
    → P (record s { failed_cases = s.failed_cases + 1 })
    → P (record s { manual_cases = s.manual_cases + 1 })
    → P (record s { blocked_cases = s.blocked_cases + 1 })
    → P (record s { pending_cases = s.pending_cases + 1 })
    → P (count_case s status)
unfolding count_case
count_case-cases s status P passed failed manual blocked pending =
    if_cases P (status ==ₛ "passed") (λ e. passed)
      λ e.
        if_cases P (status ==ₛ "failed") (λ e. failed)
          λ e.
            if_cases P (status ==ₛ "manual") (λ e. manual)
              λ e. if_cases P (status ==ₛ "blocked") (λ e. blocked) λ e. pending

counted-count_case :
    (s : SessionSummary) (status : String) → counted (count_case s status) ≡ counted s + 1
unfolding count_case
counted-count_case s status =
    count_case-cases s status (λ s'. counted s' ≡ counted s + 1) (omega arith) (omega arith)
      (omega arith) (omega arith) (omega arith)

counted-count_cases :
    (cs : List CaseResult) (s : SessionSummary) → counted (count_cases cs s) ≡ counted s + length cs
unfolding count_cases
counted-count_cases [] s = omega arith
counted-count_cases (c ∷ cs) s =
    omega (arith, counted-count_cases cs (count_case s c.status), counted-count_case s c.status)

total-count_case :
    (s : SessionSummary) (status : String) → (count_case s status).total_cases ≡ s.total_cases
unfolding count_case
total-count_case s status =
    count_case-cases s status (λ s'. s'.total_cases ≡ s.total_cases) refl refl refl refl refl

total-count_cases :
    (cs : List CaseResult) (s : SessionSummary) → (count_cases cs s).total_cases ≡ s.total_cases
unfolding count_cases
total-count_cases [] s = refl
total-count_cases (c ∷ cs) s =
    total-count_cases cs (count_case s c.status) ∙ total-count_case s c.status

abbrev status_of : SessionSummary → String
status_of c = if is_finished c then "completed" else "running"

running_differs : (s : String) → s ≡ "running" → s ≢ "completed"
running_differs s e f = ground (arith, (eq_iff "running" "completed").1 (sym e ∙ f))

finished_iff :
    (c : SessionSummary) (n : ℕ)
    → counted c ≡ n
    → (c.passed_cases + c.failed_cases ≡ n) ↔ (status_of c ≡ "completed")
unfolding is_finished
finished_iff c n e = (
  λ f. ground (arith, e, f),
  λ f. elim (Bool-cases (is_finished c)) [
    | inl finished ↦ ground (arith, finished, e)
    | inr unfinished ↦ absurd (running_differs (status_of c) (rw unfinished refl) f)
  ],
)

completion_rate_lem :
    (c : SessionSummary) (n : ℕ)
    → c.total_cases ≡ n
    → 1 ≤ n
    → completion_rate c ≡ (c.passed_cases + c.failed_cases) * 100 / n
unfolding completion_rate
completion_rate_lem c n e h = ground (arith, e, h)

rate_lem :
    (c : SessionSummary) (n : ℕ)
    → c.total_cases ≡ n
    → counted c ≡ n
    → 1 ≤ n
    → (completion_rate c ≤ 100) × ((completion_rate c ≡ 100) ↔ (status_of c ≡ "completed"))
rate_lem c n total sum h =
    let bounds = rate_bounds (c.passed_cases + c.failed_cases) n (omega (arith, sum)) h in
    let done = finished_iff c n sum in
    rw (completion_rate_lem c n total h)
      (bounds.0, (λ e. done.0 (bounds.1.0 e), λ e. bounds.1.1 (done.1 e)))

module _ (evaluators : Evaluators) (now : String) where
  pub length-rebuild_cases :
      (defs : List CaseDefinition) (rt : SessionRuntime)
      → length (rebuild_cases evaluators now defs rt).1 ≡ length defs
  unfolding rebuild_cases
  length-rebuild_cases [] rt = refl
  length-rebuild_cases (def ∷ defs) rt = ap suc (length-rebuild_cases defs _)

  -- Rebuilding a session of a suite that has cases: each case is counted once, the rate of
  -- completion is at most 100, and it is 100 exactly if the session's status is completed.
  pub rebuild_session-summary :
      (rt : SessionRuntime)
      → 1 ≤ length rt.suite.cases
      → let s = (rebuild_session evaluators now rt).session in
        (s.summary.total_cases ≡ length rt.suite.cases)
        × (counted s.summary ≡ length rt.suite.cases)
        × (s.summary.completion_rate ≤ 100)
        × ((s.summary.completion_rate ≡ 100) ↔ (s.status ≡ "completed"))
  unfolding rebuild_session closed stepped filled summarize completion_rate is_finished
  rebuild_session-summary rt h =
      let looped = rebuild_cases evaluators now rt.suite.cases rt in
      let start = record no_summary { total_cases = length looped.0.suite.cases } in
      let n = length rt.suite.cases in
      let c = count_cases looped.1 start in
      let total =
        total-count_cases looped.1 start
        ∙ ap (λ u. length u.cases) (rebuild_cases-suite evaluators now rt.suite.cases rt) in
      let sum : counted c ≡ n =
        omega (arith, counted-count_cases looped.1 start, length-rebuild_cases rt.suite.cases rt) in
      let rate = rate_lem c n total sum h in (total, sum, rate.0, rate.1)
