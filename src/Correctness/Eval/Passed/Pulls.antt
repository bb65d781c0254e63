-- ===== src/Correctness/Eval/Passed/Pulls.antt =====
-- What a passed pull (evalInboundPaginatedPull, correctness/eval.go) says of its requests.
use mathlib.Core.List.{append-eq-nil_iff}
use ocpi_mock_hub.Prelude.{
  String, ◌≡◌, refl, Option, none, some, List, [], ◌∷◌, ◌++◌ as ◌++ₗ◌, Bool, true, false, ◌&&◌,
  ◌||◌, not, ◌==ₛ◌, if◌then◌else◌, if_cases, lookup, is_some, arith, eq_iff,
}
use ocpi_mock_hub.Correctness.Types.{TrafficEvent, ActionState, SessionRuntime}
use ocpi_mock_hub.Correctness.Eval.{Tools, header_value}
use ocpi_mock_hub.Correctness.Eval.Window.{matching_inbound_list_events}
use ocpi_mock_hub.Correctness.Eval.Requests.{parse_ocpi_date_time}
use ocpi_mock_hub.Correctness.Eval.Requests.Pages.{
  offset_from_link, order_issues, number_issues, date_issues, date_from_issues, page_issues,
  pages_issues, validate_paginated_requests,
}
use ocpi_mock_hub.Correctness.Eval.Flows.Pulls.{eval_inbound_paginated_pull}
use ocpi_mock_hub.Correctness.Eval.Passed.{
  AreBlank, append-named, blank-left, blank-cons, blank-right, unique_strings-blank, when-blank,
  judge-passed, pass_gate-passed, await_some-passed,
}

module _ (tools : Tools) where
  abbrev pub query : String → TrafficEvent → String
  query key e = tools.query_value e.raw_query key

  -- The first page starts at 0, and a later one where the Link of the response before it says.
  abbrev pub continues : Option TrafficEvent → TrafficEvent → Bool
  continues none e = (query "offset" e ==ₛ "") || (query "offset" e ==ₛ "0")
  continues (some prev) e =
      let link = header_value prev.response_headers "link" in
      not (link ==ₛ "")
      && ((offset_from_link tools link ==ₛ "")
          || (query "offset" e ==ₛ offset_from_link tools link))

  -- A delta pull gives a date_from that is a UTC time, and a full pull no dates.
  abbrev pub is_dated : Bool → TrafficEvent → Bool
  is_dated true e = is_some (parse_ocpi_date_time tools (query "date_from" e))
  is_dated false e = (query "date_from" e ==ₛ "") && (query "date_to" e ==ₛ "")

  abbrev pub is_walk : Bool → Option TrafficEvent → List TrafficEvent → Bool
  is_walk dates prev [] = true
  is_walk dates prev (e ∷ es) = continues prev e && is_dated dates e && is_walk dates (some e) es

  order_issues-blank :
      (prev : Option TrafficEvent) (e : TrafficEvent)
      → AreBlank (order_issues tools prev (query "offset" e))
      → continues prev e ≡ true
  unfolding order_issues
  order_issues-blank none e h =
      let first =
        when-blank (not (query "offset" e ==ₛ "") && not (query "offset" e ==ₛ "0")) _ refl h in
      ground (arith, first)
  order_issues-blank (some prev) e h =
      let link = header_value prev.response_headers "link" in
      let next = offset_from_link tools link in
      let linked = when-blank (link ==ₛ "") _ refl (blank-left _ _ h) in
      let followed =
        when-blank (not (next ==ₛ "") && not (query "offset" e ==ₛ next)) _
          (append-named "Expected the next page offset " _ refl) (blank-right _ _ h) in
      ground (arith, linked, followed)

  date_issues-blank :
      (dates : Bool) (e : TrafficEvent)
      → AreBlank (date_issues tools dates (query "date_from" e) (query "date_to" e))
      → is_dated dates e ≡ true
  unfolding date_issues date_from_issues
  date_issues-blank true e h =
      let given : AreBlank (date_from_issues tools (query "date_from" e)) = blank-left _ _ h in
      if_cases {A = List String}
        (λ xs. AreBlank xs → is_some (parse_ocpi_date_time tools (query "date_from" e)) ≡ true)
        (query "date_from" e ==ₛ "") (λ empty g. absurd (cc (blank-cons _ [] g)))
        (λ full g.
          let parsed =
            when-blank (not (is_some (parse_ocpi_date_time tools (query "date_from" e)))) _ refl
              g in
          ground (arith, parsed))
        given
  date_issues-blank false e h =
      let undated =
        when-blank (not (query "date_from" e ==ₛ "") || not (query "date_to" e ==ₛ "")) _ refl h in
      ground (arith, undated)

  page_issues-blank :
      (dates : Bool) (prev : Option TrafficEvent) (e : TrafficEvent)
      → AreBlank (page_issues tools dates prev e)
      → continues prev e && is_dated dates e ≡ true
  unfolding page_issues
  page_issues-blank dates prev e h =
      let dated = date_issues-blank dates e (blank-right _ _ (blank-left _ _ h)) in
      let ordered = order_issues-blank prev e (order prev (blank-right _ _ h)) in
      ground (arith, dated, ordered)
    where
      order :
          (prev' : Option TrafficEvent)
          → AreBlank (
              if is_some prev'
              then number_issues tools (query "limit" e) (query "offset" e)
                ++ₗ order_issues tools prev' (query "offset" e)
              else order_issues tools prev' (query "offset" e)
                ++ₗ number_issues tools (query "limit" e) (query "offset" e))
          → AreBlank (order_issues tools prev' (query "offset" e))
      order none g =
          blank-left (order_issues tools none (query "offset" e))
            (number_issues tools (query "limit" e) (query "offset" e)) g
      order (some p) g =
          blank-right (number_issues tools (query "limit" e) (query "offset" e))
            (order_issues tools (some p) (query "offset" e)) g

  pages_issues-blank :
      (dates : Bool) (prev : Option TrafficEvent) (es : List TrafficEvent)
      → AreBlank (pages_issues tools dates prev es)
      → is_walk dates prev es ≡ true
  unfolding pages_issues
  pages_issues-blank dates prev [] h = refl
  pages_issues-blank dates prev (e ∷ es) h =
      let page = page_issues-blank dates prev e (blank-left _ _ h) in
      let rest = pages_issues-blank dates (some e) es (blank-right _ _ h) in
      ground (arith, page, rest)

  -- Where the evaluator of pulls reports passed, the action is stored, and the list requests of its
  -- window, as sorted: the first gives no offset or 0, each later one follows a response with a
  -- Link and has the offset that the Link gives, where it gives one; in a delta pull each has a
  -- date_from that is a UTC time, in a full pull none has a date_from or a date_to.
  pub eval_inbound_paginated_pull-walk :
      (rt : SessionRuntime) (id path : String) (dates : Bool) (kind expected : String)
      → (eval_inbound_paginated_pull tools rt id path dates kind expected).status ≡ "passed"
      → (a : ActionState) × (lookup id rt.actions ≡ some a)
        × (is_walk dates none (matching_inbound_list_events tools rt a.id path) ≡ true)
  unfolding eval_inbound_paginated_pull validate_paginated_requests
  eval_inbound_paginated_pull-walk rt id path dates kind expected h =
      let (a, found, answered) = pass_gate-passed rt id _ ((eq_iff _ _).1 h) in
      let es = matching_inbound_list_events tools rt a.id path in
      let judged = await_some-passed es _ _ answered in
      let issues = judge-passed _ _ _ es judged in
      (
        a,
        found,
        pages_issues-blank dates none es (
            unique_strings-blank (pages_issues tools dates none es) (append-eq-nil_iff.0 issues).0),
      )
