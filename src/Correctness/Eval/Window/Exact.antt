-- ===== src/Correctness/Eval/Window/Exact.antt =====
-- The events of an action's window (windowEvents, correctness/eval.go), position by position.
use ocpi_mock_hub.Prelude.{
  ℕ, zero, suc, ◌+◌, ◌-◌, ◌≤◌, ◌<◌, String, ◌≡◌, refl, sym, ap, ◌∙◌, some, List, [], ◌∷◌, Bool,
  ◌&&◌, not, ◌==ₛ◌, ltb, leb, if◌then◌else◌, if_cases, length, take, drop, any, lookup, values,
  arith,
}
use Prim.Native.Nat.{max}
use ocpi_mock_hub.Correctness.Types.{TrafficEvent, ActionState, SessionRuntime}
use ocpi_mock_hub.Correctness.Eval.Window.{
  ends_window, window_end, window_start, window_of, window_from, window_events,
}

-- the elements at the positions, from k on, that a test accepts
abbrev pub select : (ℕ → Bool) → ℕ → List TrafficEvent → List TrafficEvent
select p k [] = []
select p k (e ∷ es) = let rest = select p (k + 1) es in if p k then e ∷ rest else rest

-- another action that was started after position `start` and at position i or before
abbrev pub starts_between : String → ℕ → ℕ → ActionState → Bool
starts_between id start i c =
    not (c.id ==ₛ id)
    && not (c.last_run_at ==ₛ "")
    && ltb start c.event_anchor
    && leb c.event_anchor i

-- position i belongs to the action that was started at position `start`
abbrev pub is_in_window : String → ℕ → List ActionState → ℕ → Bool
is_in_window id start actions i = leb start i && not (any (starts_between id start i) actions)

select-congruent :
    (p q : ℕ → Bool) (k : ℕ) (es : List TrafficEvent)
    → ((i : ℕ) → k ≤ i → i < k + length es → p i ≡ q i)
    → select p k es ≡ select q k es
select-congruent p q k [] same = refl
select-congruent p q k (e ∷ es) same =
    let rest =
      select-congruent p q (k + 1) es (λ i lo hi. same i (omega (arith, lo)) (omega (arith, hi))) in
    ground (arith, rest, same k (omega arith) (omega arith))

select-range :
    (lo hi k m n : ℕ) (es : List TrafficEvent)
    → n ≡ lo - k
    → m ≡ hi - max lo k
    → select (λ i. leb lo i && ltb i hi) k es ≡ take m (drop n es)
select-range lo hi k zero zero [] low high = refl
select-range lo hi k (suc m) zero [] low high = refl
select-range lo hi k zero (suc n) [] low high = refl
select-range lo hi k (suc m) (suc n) [] low high = refl
select-range lo hi k m (suc n) (e ∷ es) low high =
    let rest = select-range lo hi (k + 1) m n es (omega (arith, low)) (omega (arith, low, high)) in
    ground (arith, rest, low)
select-range lo hi k zero zero (e ∷ es) low high =
    let rest = select-range lo hi (k + 1) zero zero es (omega (arith, low)) (omega (arith, high)) in
    ground (arith, rest, low, high)
select-range lo hi k (suc m) zero (e ∷ es) low high =
    let rest =
      select-range lo hi (k + 1) m zero es (omega (arith, low)) (omega (arith, low, high)) in
    ground (arith, rest, low, high)

below-window_end :
    (id : String) (start end i : ℕ) (cs : List ActionState)
    → ltb i (window_end id start end cs) ≡ ltb i end && not (any (starts_between id start i) cs)
unfolding window_end ends_window
below-window_end id start end i [] = ground arith
below-window_end id start end i (c ∷ cs) =
    below-window_end id start (if ends_window id start end c then c.event_anchor else end) i cs
    ∙ ground arith

window_of-select :
    (id : String) (rt : SessionRuntime) (a : ActionState)
    → window_of id rt a
      ≡ select (is_in_window id (window_start a rt.events) (values rt.actions)) 0 rt.events
unfolding window_of
window_of-select id rt a =
    let start = window_start a rt.events in
    let end = window_end id start (length rt.events) (values rt.actions) in
    if_cases {A = List TrafficEvent} (λ es. es ≡ select (λ i. leb start i && ltb i end) 0 rt.events)
      (leb end start)
      (λ e. sym (select-range start end 0 0 start rt.events (omega arith) (ground (arith, e))))
      (λ e.
        sym (
          select-range start end 0 (end - start) start rt.events (omega arith) (ground (arith, e))))
    ∙ select-congruent _ _ 0 rt.events λ i lo hi.
      ground (arith, below-window_end id start (length rt.events) i (values rt.actions), hi)

-- For an action that is stored under the given id, with an anchor that is not past the recorded
-- events: its window consists of exactly the events, in order, at the positions from its anchor on
-- before which no other action with a different id that has run starts, where an action starts at
-- its anchor if that lies behind the window's.
pub window_events-select :
    (rt : SessionRuntime) (id : String) (a : ActionState)
    → lookup id rt.actions ≡ some a
    → a.event_anchor ≤ length rt.events
    → window_events rt id ≡ select (is_in_window id a.event_anchor (values rt.actions)) 0 rt.events
unfolding window_events window_from window_start
window_events-select rt id a found anchored =
    ap (window_from id rt) found
    ∙ window_of-select id rt a
    ∙ ap (λ start. select (is_in_window id start (values rt.actions)) 0 rt.events)
        (ground (arith, anchored))
