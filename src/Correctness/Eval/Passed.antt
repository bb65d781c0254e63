-- ===== src/Correctness/Eval/Passed.antt =====
-- What a passed verdict of an evaluator (correctness/eval.go) says of the traffic.
pub mod Pulls
pub mod Authorize
use Prim.Native.String.{◌++◌}
use text.Mathlib.TextLemmas.{append-eq-nil_iff}
use ocpi_mock_hub.Prelude.{
  ℕ, ◌≤◌, String, ◌≡◌, refl, sym, ap, subst, ◌∙◌, Option, none, some, List, [], ◌∷◌, ◌++◌ as ◌++ₗ◌,
  Bool, true, false, ◌&&◌, ◌||◌, not, ◌==ₛ◌, ltb, if◌then◌else◌, all, has, if_cases, Bool-cases,
  inl, inr, eq_iff, lookup, is_some, or_else, arith,
}
use ocpi_mock_hub.Auth.{Base64}
use ocpi_mock_hub.Correctness.Types.{TrafficEvent, ActionState, CaseEvaluation, SessionRuntime}
use ocpi_mock_hub.Correctness.Eval.{
  Tools, header_value, unique_from, unique_strings, when, judge, passed_eval, failed_eval,
  pending_eval, await, await_some,
}
use ocpi_mock_hub.Correctness.Eval.Window.{
  Gate, closed, opened, gate_of, action_gate, pass_gate, window_events,
  matching_inbound_list_events,
}
use ocpi_mock_hub.Correctness.Eval.Requests.Pages.{
  offset_from_link, order_issues, page_issues, pages_issues, validate_paginated_requests,
}
use ocpi_mock_hub.Correctness.Eval.Flows.Pulls.{updated_issues, eval_inbound_paginated_pull}

-- every issue is blank, which uniqueStrings drops
abbrev are_blank : List String → Bool
are_blank issues = all (λ s. s ==ₛ "") issues

pub record AreBlank (issues : List String) : Type 0 where
  pub holds : are_blank issues ≡ true

are_blank-append : (xs ys : List String) → are_blank (xs ++ₗ ys) ≡ are_blank xs && are_blank ys
are_blank-append [] ys = refl
are_blank-append (x ∷ xs) ys = ground (arith, are_blank-append xs ys)

pub blank-left : (xs ys : List String) → AreBlank (xs ++ₗ ys) → AreBlank xs
blank-left xs ys h = record { holds = ground (arith, are_blank-append xs ys, h.holds) }

pub blank-right : (xs ys : List String) → AreBlank (xs ++ₗ ys) → AreBlank ys
blank-right xs ys h = record { holds = ground (arith, are_blank-append xs ys, h.holds) }

pub blank-cons : (s : String) (xs : List String) → AreBlank (s ∷ xs) → s ==ₛ "" ≡ true
blank-cons s xs h = ground (arith, h.holds)

-- a text that was not seen, and is not blank, is kept
unique_from-nil : (x : String) (xs : List String) → unique_from [] (x ∷ xs) ≡ [] → x ==ₛ "" ≡ true
unfolding unique_from has
unique_from-nil x xs h = ground (arith, h)

unique_from-tail :
    (x : String) (xs : List String) → unique_from [] (x ∷ xs) ≡ [] → unique_from [] xs ≡ []
unfolding unique_from has
unique_from-tail x xs h = ground (arith, h)

unique_from-blank : (xs : List String) → unique_from [] xs ≡ [] → are_blank xs ≡ true
unique_from-blank [] h = refl
unique_from-blank (x ∷ xs) h =
    ground (arith, unique_from-nil x xs h, unique_from-blank xs (unique_from-tail x xs h))

pub unique_strings-blank : (xs : List String) → unique_strings xs ≡ [] → AreBlank xs
unfolding unique_strings
unique_strings-blank xs h = record { holds = unique_from-blank xs h }

pub nil-blank : (xs : List String) → xs ≡ [] → AreBlank xs
nil-blank xs h = record { holds = ap are_blank h }

-- a message that begins with a text is not blank
pub append-named : (s t : String) → s ==ₛ "" ≡ false → s ++ t ==ₛ "" ≡ false
append-named s t h = elim (Bool-cases (s ++ t ==ₛ "")) [
  | inl e ↦ absurd (ground (arith, h, eq_iff s "", (append-eq-nil_iff.0 ((eq_iff _ _).0 e)).0))
  | inr e ↦ e
]

pub when-blank : (b : Bool) (s : String) → s ==ₛ "" ≡ false → AreBlank (when b s) → b ≡ false
unfolding when
when-blank b s h e = ground (arith, h, e.holds)

abbrev pub is_passed : CaseEvaluation → Bool
is_passed v = v.status ==ₛ "passed"

pub judge-passed :
    (intro : String) (issues : List String) (message : String) (es : List TrafficEvent)
    → is_passed (judge intro issues message es) ≡ true
    → issues ≡ []
unfolding judge failed_eval
judge-passed intro [] message es h = refl
judge-passed intro (i ∷ is) message es h = cc

-- a gate that lets a passed verdict through is open
pub pass_gate-passed :
    (rt : SessionRuntime) (id : String) (continue : ActionState → CaseEvaluation)
    → is_passed (pass_gate (action_gate rt id) continue) ≡ true
    → (a : ActionState) × (lookup id rt.actions ≡ some a) × (is_passed (continue a) ≡ true)
unfolding action_gate gate_of pass_gate
pass_gate-passed rt id continue = passed (lookup id rt.actions) refl
  where
    passed :
        (o : Option ActionState)
        → lookup id rt.actions ≡ o
        → is_passed (pass_gate (gate_of id o) continue) ≡ true
        → (a : ActionState) × (lookup id rt.actions ≡ some a) × (is_passed (continue a) ≡ true)
    passed none found = λ h. absurd (cc (h))
    passed (some a) found =
        if_cases {A = Gate}
          (λ g.
            is_passed (pass_gate g continue) ≡ true
            → (a' : ActionState) × (lookup id rt.actions ≡ some a')
              × (is_passed (continue a') ≡ true))
          (a.status ==ₛ "idle") (λ e h. absurd (cc (h)))
          (λ e.
            if_cases {A = Gate}
              (λ g.
                is_passed (pass_gate g continue) ≡ true
                → (a' : ActionState) × (lookup id rt.actions ≡ some a')
                  × (is_passed (continue a') ≡ true))
              (a.status ==ₛ "failed") (λ e' h. absurd (cc (h))) (λ e' h. (a, found, h)))

pub await-passed :
    (o : Option TrafficEvent) (message : String) (found : TrafficEvent → CaseEvaluation)
    → is_passed (await o (pending_eval message []) found) ≡ true
    → (e : TrafficEvent) × (o ≡ some e) × (is_passed (found e) ≡ true)
unfolding await pending_eval
await-passed none message found h = cc
await-passed (some e) message found h = (e, refl, h)

pub await_some-passed :
    (es : List TrafficEvent) (message : String) (found : List TrafficEvent → CaseEvaluation)
    → is_passed (await_some es (pending_eval message []) found) ≡ true
    → is_passed (found es) ≡ true
unfolding await_some pending_eval
await_some-passed [] message found h = cc
await_some-passed (e ∷ es) message found h = h
