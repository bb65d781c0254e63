-- ===== src/Correctness/Eval/Flows/Commands.antt =====
-- evalRemoteStart and evalRemoteStop (correctness/eval.go): a command and its callback.
use Prim.Native.String.{◌++◌}
use ocpi_mock_hub.Prelude.{
  String, Option, none, some, List, [], ◌∷◌, ◌++◌ as ◌++ₗ◌, Bool, true, false, ◌&&◌, not, ◌==ₛ◌,
  if◌then◌else◌, ◌>>=◌, Dict, trim_space, trim_slashes, equal_fold, join,
}
use ocpi_mock_hub.Json.{Fields, read_string, unmarshal}
use ocpi_mock_hub.Auth.{Base64}
use ocpi_mock_hub.Store.{bytes_or_nil}
use ocpi_mock_hub.Overlay.{OverlayState}
use ocpi_mock_hub.Overlay.Instance.{overlay_store}
use ocpi_mock_hub.Correctness.Types.{TrafficEvent, CaseEvaluation, SessionRuntime}
use ocpi_mock_hub.Correctness.Eval.{Tools, pending_eval, judge, await}
use ocpi_mock_hub.Correctness.Eval.Window.{
  action_gate, pass_gate, window_events, first_matching_event,
}
use ocpi_mock_hub.Correctness.Eval.Requests.{validate_inbound_ocpi_request, validate_response_time}
use ocpi_mock_hub.Correctness.Eval.Responses.{validate_ocpi_envelope_response}
use ocpi_mock_hub.Correctness.Eval.Payloads.{expected_value}
use ocpi_mock_hub.Correctness.Eval.Payloads.Commands.{
  validate_command_payload, validate_start_session_expectations,
}
use ocpi_mock_hub.Correctness.Eval.Flows.{sandbox_state}

unfoldable pub normalize_command_callback_url : String → String
unfolding trim_space trim_slashes
normalize_command_callback_url raw = trim_slashes (trim_space raw)

unfoldable pub is_accepted : Option String → Bool
unfolding trim_space equal_fold
is_accepted none = false
is_accepted (some result) = equal_fold (trim_space result) "ACCEPTED"

unfoldable pub has_accepted_command_result : Tools → String → Bool
unfolding is_accepted
has_accepted_command_result tools body =
    is_accepted (unmarshal (read_string "result") (tools.parse_json body))

unfoldable pub read_command : Fields → Option (String × String)
read_command fs = do
  response_url ← read_string "response_url" fs
  session_id ← read_string "session_id" fs
  some (response_url, session_id)

-- the response URL that the stored session keeps
unfoldable pub stored_target : Option String → String
unfolding normalize_command_callback_url
stored_target none = ""
stored_target (some url) = normalize_command_callback_url url

unfoldable pub remote_start_details : Dict String → List String
unfolding expected_value
remote_start_details expected =
    let evse = expected_value expected "evse_uid" in
    let connector = expected_value expected "connector_id" in
    let uid = expected_value expected "token_uid" in
    let type = expected_value expected "token_type" in
    (if evse ==ₛ "" then [] else ("evse_uid=" ++ evse) ∷ [])
    ++ₗ (if connector ==ₛ "" then [] else ("connector_id=" ++ connector) ∷ [])
    ++ₗ (if uid ==ₛ ""
        then []
        else ("token.uid=" ++ uid ++ (if type ==ₛ "" then "" else " (" ++ type ++ ")")) ∷ [])

unfoldable pub remote_start_pending_message : Dict String → String
unfolding expected_value remote_start_details join
remote_start_pending_message expected =
    let location = expected_value expected "location_id" in
    if location ==ₛ ""
    then "Waiting for the peer to send START_SESSION."
    else "Waiting for the peer to send START_SESSION. Use the prepared happy-path target: "
      ++ join ", " (("location_id=" ++ location) ∷ remote_start_details expected)
      ++ "."

module _ (base64 : Base64) (tools : Tools) (overlays : Dict OverlayState) where
  unfoldable pub command_target : SessionRuntime → Option (String × String) → String
  unfolding normalize_command_callback_url stored_target sandbox_state
  command_target rt none = ""
  command_target rt (some (response_url, session_id)) =
      let target = normalize_command_callback_url response_url in
      if not (target ==ₛ "")
      then target
      else if session_id ==ₛ ""
      then ""
      else stored_target (
          unmarshal (read_string "_response_url") (
            bytes_or_nil
              (overlay_store.get_session session_id (sandbox_state base64 tools overlays rt))))

  unfoldable pub command_callback_target : SessionRuntime → TrafficEvent → String
  unfolding command_target read_command
  command_callback_target rt command =
      command_target rt (unmarshal read_command (tools.parse_json command.request_body))

  unfoldable pub is_callback : String → TrafficEvent → Bool
  unfolding normalize_command_callback_url has_accepted_command_result
  is_callback target e =
      (e.direction ==ₛ "outbound")
      && (e.method ==ₛ "POST")
      && (e.action_id ==ₛ "")
      && (normalize_command_callback_url e.url ==ₛ target)
      && has_accepted_command_result tools e.request_body

  unfoldable pub matching_command_callback :
      SessionRuntime → List TrafficEvent → TrafficEvent → Option TrafficEvent
  matching_command_callback rt events command =
      let target = command_callback_target rt command in
      if target ==ₛ "" then none else first_matching_event (is_callback target) events

  abbrev pub is_command : String → TrafficEvent → Bool
  is_command path e = (e.direction ==ₛ "inbound") && (e.method ==ₛ "POST") && (e.path ==ₛ path)

  -- the part that evalRemoteStart and evalRemoteStop share, from the command's issues on
  unfoldable pub judge_command :
      SessionRuntime
      → List TrafficEvent
      → TrafficEvent
      → List String
      → String
      → String
      → String
      → CaseEvaluation
  judge_command rt events command issues waiting intro message =
      await (matching_command_callback rt events command) (pending_eval waiting (command ∷ []))
        λ callback.
          judge intro
            (issues
              ++ₗ validate_response_time tools callback 2000
              ++ₗ validate_ocpi_envelope_response tools callback true)
            message (command ∷ callback ∷ [])

  unfoldable pub eval_remote_start : SessionRuntime → CaseEvaluation
  eval_remote_start rt = pass_gate (action_gate rt "arm_remote_start") λ action.
      let events = window_events rt action.id in
      await (first_matching_event (is_command "/ocpi/2.2.1/receiver/commands/START_SESSION") events)
        (pending_eval (remote_start_pending_message action.output) [])
        λ e.
          judge_command rt events e
            (validate_inbound_ocpi_request e
              ++ₗ validate_command_payload tools e "START_SESSION"
              ++ₗ validate_start_session_expectations tools e action.output
              ++ₗ validate_ocpi_envelope_response tools e true)
            "Waiting for the asynchronous START_SESSION callback exchange."
            "The START_SESSION flow did not satisfy the expected command and callback behavior."
            "The peer sent a valid START_SESSION command and accepted the callback flow."

  unfoldable pub eval_remote_stop : SessionRuntime → CaseEvaluation
  eval_remote_stop rt = pass_gate (action_gate rt "arm_remote_stop") λ action.
      let events = window_events rt action.id in
      await (first_matching_event (is_command "/ocpi/2.2.1/receiver/commands/STOP_SESSION") events)
        (pending_eval "Waiting for the peer to send STOP_SESSION." [])
        λ e.
          judge_command rt events e
            (validate_inbound_ocpi_request e
              ++ₗ validate_command_payload tools e "STOP_SESSION"
              ++ₗ validate_ocpi_envelope_response tools e true)
            "Waiting for the asynchronous STOP_SESSION callback exchange."
            "The STOP_SESSION flow did not satisfy the expected command and callback behavior."
            "The peer sent a valid STOP_SESSION command and accepted the callback flow."
