-- ===== src/Correctness/Eval/Verdicts/Flows.antt =====
-- The verdicts of the evaluators (correctness/eval.go), one lemma for each way to follow the traffic.
use ocpi_mock_hub.Prelude.{
  subst, or_else, String, ◌≡◌, refl, Option, List, [], ◌∷◌, Bool, true, ◌==ₛ◌, if_cases, ltb,
  length, all, lookup, Dict, arith,
}
use ocpi_mock_hub.Auth.{Base64}
use ocpi_mock_hub.Overlay.{OverlayState}
use ocpi_mock_hub.Correctness.Types.{
  TrafficEvent, ActionState, CheckpointState, CaseDefinition, CaseEvaluation, SessionRuntime,
}
use ocpi_mock_hub.Correctness.Eval.{Tools, pending_eval, await}
use ocpi_mock_hub.Correctness.Eval.Window.{
  window_events, filter_direction, first_matching_event, nth_matching_event,
  matching_inbound_list_events,
}
use ocpi_mock_hub.Correctness.Eval.Flows.{
  is_method, is_get, judge_handshake, eval_handshake_flow, judge_details, judge_versions,
  eval_peer_fetches_hub_versions,
}
use ocpi_mock_hub.Correctness.Eval.Flows.Commands.{
  is_command, is_callback, command_callback_target, matching_command_callback, judge_command,
  eval_remote_start, eval_remote_stop,
}
use ocpi_mock_hub.Correctness.Eval.Flows.Pushes.{
  is_token_push, eval_outbound, eval_inbound_token_push,
}
use ocpi_mock_hub.Correctness.Eval.Flows.Pulls.{
  judge_manually, eval_inbound_paginated_pull, eval_delta_pull, eval_removal,
}
use ocpi_mock_hub.Correctness.Eval.Verdicts.{SortKeeps, AreOwn, IsVerdict, is_recorded, was_started}
use ocpi_mock_hub.Correctness.Eval.Verdicts.Traffic.{
  all_option, all_option-first, all_option-nth, window_events-recorded, filter_direction-recorded,
  matching_inbound_list_events-recorded,
}
use ocpi_mock_hub.Correctness.Eval.Verdicts.Rules.{
  pending_eval-IsVerdict, failed_eval-IsVerdict, pass_gate-IsVerdict, judge-IsVerdict,
  manual_or_passed-IsVerdict, await-IsVerdict, await_some-IsVerdict,
}

module _ (base64 : Base64) (tools : Tools) (overlays : Dict OverlayState) (rt : SessionRuntime)
    (own : AreOwn rt) where
  module _ (id : String) (is_started : was_started (lookup id rt.actions) ≡ true) where
    -- the first event of a list of recorded ones, or a message while there is none
    await_first-IsVerdict :
        (test : TrafficEvent → Bool) (es : List TrafficEvent) (message : String)
        (found : TrafficEvent → CaseEvaluation)
        → all (is_recorded rt id) es ≡ true
        → ((e : TrafficEvent) → is_recorded rt id e ≡ true → IsVerdict rt id (found e))
        → IsVerdict rt id (await (first_matching_event test es) (pending_eval message []) found)
    await_first-IsVerdict test es message found h f =
        await-IsVerdict rt id (first_matching_event test es) (pending_eval message []) found
          (all_option-first (is_recorded rt id) test es h)
          (pending_eval-IsVerdict rt id message [] refl) f

    judge_handshake-IsVerdict :
        (es : List TrafficEvent)
        → all (is_recorded rt id) es ≡ true
        → IsVerdict rt id (judge_handshake base64 tools overlays rt es)
    unfolding judge_handshake
    judge_handshake-IsVerdict es h =
        await_first-IsVerdict (is_method base64 tools overlays "GET") es _ _ h λ versions v.
          await-IsVerdict rt id (nth_matching_event 2 (is_method base64 tools overlays "GET") es) _
            _ (all_option-nth (is_recorded rt id) (is_method base64 tools overlays "GET") 2 es h)
            (pending_eval-IsVerdict rt id _ [] refl)
            λ details d.
              await_first-IsVerdict (is_method base64 tools overlays "POST") es _ _ h λ post p.
                judge-IsVerdict rt id is_started _ _ _ (versions ∷ details ∷ post ∷ [])
                  (ground (arith, v, d, p))

    judge_details-IsVerdict :
        (es : List TrafficEvent) (versions : TrafficEvent)
        → all (is_recorded rt id) es ≡ true
        → is_recorded rt id versions ≡ true
        → IsVerdict rt id (judge_details base64 tools overlays rt es versions)
    unfolding judge_details
    judge_details-IsVerdict es versions h v =
        await-IsVerdict rt id (first_matching_event (is_get base64 tools overlays "/ocpi/2.2.1") es)
          _ _
          (all_option-first (is_recorded rt id) (is_get base64 tools overlays "/ocpi/2.2.1") es h)
          (pending_eval-IsVerdict rt id _ (versions ∷ []) (ground (arith, v)))
          λ details d.
            judge-IsVerdict rt id is_started _ _ _ (versions ∷ details ∷ []) (ground (arith, v, d))

    judge_versions-IsVerdict :
        (es : List TrafficEvent) (versions : TrafficEvent) (issues : List String)
        → all (is_recorded rt id) es ≡ true
        → is_recorded rt id versions ≡ true
        → IsVerdict rt id (judge_versions base64 tools overlays rt es versions issues)
    unfolding judge_versions
    judge_versions-IsVerdict es versions [] h v = judge_details-IsVerdict es versions h v
    judge_versions-IsVerdict es versions (i ∷ is) h v =
        failed_eval-IsVerdict rt id _ (i ∷ is) (versions ∷ []) (ground (arith, v))

    matching_command_callback-recorded :
        (es : List TrafficEvent) (command : TrafficEvent)
        → all (is_recorded rt id) es ≡ true
        → all_option
            (is_recorded rt id)
            (matching_command_callback base64 tools overlays rt es command)
          ≡ true
    unfolding matching_command_callback
    matching_command_callback-recorded es command h =
        let target = command_callback_target base64 tools overlays rt command in
        if_cases {A = Option TrafficEvent} (λ o. all_option (is_recorded rt id) o ≡ true)
          (target ==ₛ "") (λ e. refl)
          (λ e.
            all_option-first (is_recorded rt id) (is_callback base64 tools overlays target) es h)

    judge_command-IsVerdict :
        (es : List TrafficEvent) (command : TrafficEvent) (issues : List String)
        (waiting intro message : String)
        → all (is_recorded rt id) es ≡ true
        → is_recorded rt id command ≡ true
        → IsVerdict rt id
            (judge_command base64 tools overlays rt es command issues waiting intro message)
    unfolding judge_command
    judge_command-IsVerdict es command issues waiting intro message h c =
        await-IsVerdict rt id (matching_command_callback base64 tools overlays rt es command) _ _
          (matching_command_callback-recorded es command h)
          (pending_eval-IsVerdict rt id waiting (command ∷ []) (ground (arith, c)))
          λ callback k.
            judge-IsVerdict rt id is_started _ _ _ (command ∷ callback ∷ []) (ground (arith, c, k))

    judge_manually-IsVerdict :
        (intro : String) (issues : List String) (cp : Option CheckpointState) (message : String)
        (es : List TrafficEvent)
        → all (is_recorded rt id) es ≡ true
        → IsVerdict rt id (judge_manually intro issues cp message es)
    unfolding judge_manually
    judge_manually-IsVerdict intro [] cp message es h =
        manual_or_passed-IsVerdict rt id is_started cp message es h
    judge_manually-IsVerdict intro (i ∷ is) cp message es h =
        failed_eval-IsVerdict rt id intro (i ∷ is) es h

  pub eval_handshake_flow-IsVerdict :
      IsVerdict rt "run_handshake" (eval_handshake_flow base64 tools overlays rt)
  unfolding eval_handshake_flow
  eval_handshake_flow-IsVerdict = pass_gate-IsVerdict rt "run_handshake" _ own λ a s o.
      let es = filter_direction (window_events rt a.id) "outbound" in
      if_cases {A = CaseEvaluation} (IsVerdict rt "run_handshake") (ltb (length es) 3)
        (λ e. pending_eval-IsVerdict rt "run_handshake" _ [] refl)
        (λ e.
          judge_handshake-IsVerdict "run_handshake" s es
            (filter_direction-recorded rt "run_handshake" "outbound" a o))

  pub eval_peer_fetches_hub_versions-IsVerdict :
      IsVerdict rt "run_handshake" (eval_peer_fetches_hub_versions base64 tools overlays rt)
  unfolding eval_peer_fetches_hub_versions
  eval_peer_fetches_hub_versions-IsVerdict = pass_gate-IsVerdict rt "run_handshake" _ own λ a s o.
      let recorded = filter_direction-recorded rt "run_handshake" "inbound" a o in
      await_first-IsVerdict "run_handshake" s (is_get base64 tools overlays "/ocpi/versions")
        (filter_direction (window_events rt a.id) "inbound") _ _ recorded
        λ versions v. judge_versions-IsVerdict "run_handshake" s _ versions _ recorded v

  pub eval_outbound-IsVerdict :
      (id : String) (test : TrafficEvent → Bool) (waiting intro : String)
      (issues : ActionState → TrafficEvent → List String) (message : String)
      → IsVerdict rt id
          (eval_outbound base64 tools overlays rt id test waiting intro issues message)
  unfolding eval_outbound
  eval_outbound-IsVerdict id test waiting intro issues message =
      pass_gate-IsVerdict rt id _ own λ a s o.
        await_first-IsVerdict id s test (filter_direction (window_events rt a.id) "outbound")
          waiting _ (filter_direction-recorded rt id "outbound" a o)
          λ e h. judge-IsVerdict rt id s intro (issues a e) message (e ∷ []) (ground (arith, h))

  pub eval_remote_start-IsVerdict :
      IsVerdict rt "arm_remote_start" (eval_remote_start base64 tools overlays rt)
  unfolding eval_remote_start
  eval_remote_start-IsVerdict = pass_gate-IsVerdict rt "arm_remote_start" _ own λ a s o.
      await_first-IsVerdict "arm_remote_start" s
        (is_command base64 tools overlays "/ocpi/2.2.1/receiver/commands/START_SESSION")
        (window_events rt a.id) _ _ (window_events-recorded rt "arm_remote_start" a o)
        λ e h.
          judge_command-IsVerdict "arm_remote_start" s (window_events rt a.id) e _ _ _ _
            (window_events-recorded rt "arm_remote_start" a o) h

  pub eval_remote_stop-IsVerdict :
      IsVerdict rt "arm_remote_stop" (eval_remote_stop base64 tools overlays rt)
  unfolding eval_remote_stop
  eval_remote_stop-IsVerdict = pass_gate-IsVerdict rt "arm_remote_stop" _ own λ a s o.
      await_first-IsVerdict "arm_remote_stop" s
        (is_command base64 tools overlays "/ocpi/2.2.1/receiver/commands/STOP_SESSION")
        (window_events rt a.id) _ _ (window_events-recorded rt "arm_remote_stop" a o)
        λ e h.
          judge_command-IsVerdict "arm_remote_stop" s (window_events rt a.id) e _ _ _ _
            (window_events-recorded rt "arm_remote_stop" a o) h

  pub eval_inbound_token_push-IsVerdict :
      (id : String) (known invalid : Bool)
      → IsVerdict rt id (eval_inbound_token_push base64 tools overlays rt id known invalid)
  unfolding eval_inbound_token_push
  eval_inbound_token_push-IsVerdict id known invalid = pass_gate-IsVerdict rt id _ own λ a s o.
      await_first-IsVerdict id s (is_token_push base64 tools overlays) (window_events rt a.id) _ _
        (window_events-recorded rt id a o)
        λ e h. judge-IsVerdict rt id s _ _ _ (e ∷ []) (ground (arith, h))

  module _ (keeps : SortKeeps tools) where
    pub eval_inbound_paginated_pull-IsVerdict :
        (id path : String) (dates : Bool) (kind expected : String)
        → IsVerdict rt id (eval_inbound_paginated_pull tools rt id path dates kind expected)
    unfolding eval_inbound_paginated_pull
    eval_inbound_paginated_pull-IsVerdict id path dates kind expected =
        pass_gate-IsVerdict rt id _ own λ a s o.
          await_some-IsVerdict rt id (matching_inbound_list_events tools rt a.id path) _ _
            (matching_inbound_list_events-recorded rt tools keeps id path a o)
            (pending_eval-IsVerdict rt id _ [] refl) λ es h. judge-IsVerdict rt id s _ _ _ es h

    -- the inner gate asks for the action's own id, the outer one for the evaluator's, which is the same
    pub eval_delta_pull-IsVerdict :
        (id path kind key : String) → IsVerdict rt id (eval_delta_pull tools rt id path kind key)
    unfolding eval_delta_pull
    eval_delta_pull-IsVerdict id path kind key = pass_gate-IsVerdict rt id _ own λ a s o.
        let inner = eval_inbound_paginated_pull-IsVerdict a.id path true kind _ in
        subst
          (λ i. IsVerdict rt i (
            eval_inbound_paginated_pull tools rt a.id path true kind
              (or_else (lookup key a.output) "")))
          o inner

    pub eval_removal-IsVerdict :
        (def : CaseDefinition) (id waiting : String) (dates : Bool)
        (issues : ActionState → List TrafficEvent → List String) (cp intro message : String)
        → IsVerdict rt id (eval_removal tools rt def id waiting dates issues cp intro message)
    unfolding eval_removal
    eval_removal-IsVerdict def id waiting dates issues cp intro message =
        pass_gate-IsVerdict rt id _ own λ a s o.
          await_some-IsVerdict rt id
            (matching_inbound_list_events tools rt a.id "/ocpi/2.2.1/sender/locations") _ _
            (matching_inbound_list_events-recorded rt tools keeps id "/ocpi/2.2.1/sender/locations"
              a o)
            (pending_eval-IsVerdict rt id waiting [] refl)
            λ es h. judge_manually-IsVerdict id s intro _ _ message es h
