-- ===== src/Correctness/Eval/Verdicts/Traffic.antt =====
-- What the evaluators (correctness/eval.go) look at is traffic of their action.
use ocpi_mock_hub.Prelude.{
  subst, ℕ, zero, suc, String, ◌≡◌, refl, sym, Option, none, some, List, [], ◌∷◌, Bool, true, ◌==ₛ◌,
  any, all, filter, text_lt, arith, eq_refl,
}
use ocpi_mock_hub.Correctness.Types.{TrafficEvent, ActionState, SessionRuntime}
use ocpi_mock_hub.Correctness.Eval.{Tools, collect_event_ids}
use ocpi_mock_hub.Correctness.Eval.Window.{
  is_list_request, window_events, filter_direction, first_matching_event, nth_matching_event,
  matching_inbound_list_events,
}
use ocpi_mock_hub.Correctness.Eval.Verdicts.{SortKeeps, is_recorded, is_evidence}

all-filter :
    (p q : TrafficEvent → Bool) (es : List TrafficEvent)
    → all p es ≡ true
    → all p (filter q es) ≡ true
all-filter p q [] h = refl
all-filter p q (e ∷ es) h = ground (arith, all-filter p q es)

-- the elements of a list are among those of every list that it ends
all-any :
    (es : List TrafficEvent) (rs : List TrafficEvent)
    → ((id : String)
        → any (λ (r : TrafficEvent). r.id ==ₛ id) es ≡ true
        → any (λ (r : TrafficEvent). r.id ==ₛ id) rs ≡ true)
    → all (λ (e : TrafficEvent). any (λ (r : TrafficEvent). r.id ==ₛ e.id) rs) es ≡ true
all-any [] rs within = refl
all-any (e ∷ es) rs within =
    ground (arith, within e.id, eq_refl e.id, all-any es rs (λ id h. within id (ground (arith, h))))

abbrev pub all_option : (TrafficEvent → Bool) → Option TrafficEvent → Bool
all_option p none = true
all_option p (some e) = p e

pub all_option-first :
    (p test : TrafficEvent → Bool) (es : List TrafficEvent)
    → all p es ≡ true
    → all_option p (first_matching_event test es) ≡ true
unfolding first_matching_event
all_option-first p test [] h = refl
all_option-first p test (e ∷ es) h = ground (arith, all_option-first p test es)

pub all_option-nth :
    (p test : TrafficEvent → Bool) (n : ℕ) (es : List TrafficEvent)
    → all p es ≡ true
    → all_option p (nth_matching_event n test es) ≡ true
unfolding nth_matching_event
all_option-nth p test n [] h = refl
all_option-nth p test zero (e ∷ es) h = refl
all_option-nth p test (suc zero) (e ∷ es) h = ground (arith, all_option-nth p test (suc zero) es)
all_option-nth p test (suc (suc n)) (e ∷ es) h =
    ground (arith, all_option-nth p test (suc n) es, all_option-nth p test (suc (suc n)) es)

module _ (rt : SessionRuntime) where
  pub window_events-recorded :
      (id : String) (a : ActionState)
      → a.id ≡ id
      → all (is_recorded rt id) (window_events rt a.id) ≡ true
  window_events-recorded id a own =
      subst (λ i. all (is_recorded rt id) (window_events rt i) ≡ true) (sym own)
        (all-any (window_events rt id) (window_events rt id) (λ k h. h))

  pub filter_direction-recorded :
      (id direction : String) (a : ActionState)
      → a.id ≡ id
      → all (is_recorded rt id) (filter_direction (window_events rt a.id) direction) ≡ true
  unfolding filter_direction
  filter_direction-recorded id direction a own =
      all-filter (is_recorded rt id) (λ (e : TrafficEvent). e.direction ==ₛ direction)
        (window_events rt a.id) (window_events-recorded id a own)

  pub matching_inbound_list_events-recorded :
      (tools : Tools)
      → SortKeeps tools
      → (id path : String) (a : ActionState) → a.id ≡ id
      → all (is_recorded rt id) (matching_inbound_list_events tools rt a.id path) ≡ true
  unfolding matching_inbound_list_events
  matching_inbound_list_events-recorded tools keeps id path a own =
      keeps (λ (x y : TrafficEvent). text_lt x.started_at y.started_at) (is_recorded rt id)
        (filter (is_list_request path) (window_events rt a.id))
        (all-filter (is_recorded rt id) (is_list_request path) (window_events rt a.id)
          (window_events-recorded id a own))

  pub collect_event_ids-recorded :
      (id : String) (es : List TrafficEvent)
      → all (is_recorded rt id) es ≡ true
      → all (is_evidence rt id) (collect_event_ids es) ≡ true
  unfolding collect_event_ids
  collect_event_ids-recorded id [] h = refl
  collect_event_ids-recorded id (e ∷ es) h = ground (arith, collect_event_ids-recorded id es)
