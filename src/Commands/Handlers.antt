-- ===== src/Commands/Handlers.antt =====
-- The five command handlers and PostCommand.
use ocpi_mock_hub.Prelude.{
  String, Option, none, some, [], ◌∷◌, ◌==ₛ◌, if◌then◌else◌, to_upper, or_else,
}
use Prim.Native.String.{◌++◌}
use ocpi_mock_hub.Json.{Fields, Bytes, is_nil, unmarshal}
use ocpi_mock_hub.Response.{Outcome, respond, reply_with, ok, error}
use ocpi_mock_hub.Store.{Store, text_or_empty, bytes_or_nil}
use ocpi_mock_hub.Seed.{Seed, Location, location_by_id}
use ocpi_mock_hub.Records.{SessionRecord, marshal_session, unmarshal_session, marshal_reservation}
use ocpi_mock_hub.Commands.{
  StartSession, read_start_session, StopSession, read_stop_session, ReserveNow, read_reserve_now,
  read_cancel_reservation, UnlockConnector, read_unlock_connector, result_json, new_session,
  stopped, new_reservation,
}

module _ (store : Store) where
  abbrev answer : String → store.State → Outcome store.State
  answer r s = reply_with s (ok (result_json r))

  unknown_location : String → store.State → Outcome store.State
  unknown_location id s = reply_with s (error 404 2004 ("Location " ++ id ++ " not found"))

  -- The start of every handler: the body is read and decoded, and the mode may refuse.
  unfoldable pub with_payload {ℓ} :
      {A : Type ℓ}
      → (Fields → Option A)
      → String
      → Option Bytes
      → (A → store.State → Outcome store.State)
      → store.State
      → Outcome store.State
  with_payload read mode none run s = reply_with s (error 400 2000 "Failed to read body")
  with_payload read mode (some body) run s = elim (unmarshal read body) [
    | none ↦ reply_with s (error 400 2003 "Invalid JSON")
    | some p ↦ if mode ==ₛ "reject" then answer "REJECTED" s else run p s
  ]

  unfoldable pub start_at :
      String → String → StartSession → Option Location → store.State → Outcome store.State
  unfolding unknown_location
  start_at now uuid p none s = unknown_location p.location_id s
  start_at now uuid p (some loc) s =
      let session = new_session p loc now uuid in
      answer "ACCEPTED" (or_else (store.put_session session.id (marshal_session session) s) s)

  unfoldable pub handle_start_session :
      Seed → String → String → String → Option Bytes → store.State → Outcome store.State
  unfolding with_payload start_at
  handle_start_session seed now uuid mode body s =
      with_payload read_start_session mode body
        (λ p s'. start_at now uuid p (location_by_id seed p.location_id) s') s

  unfoldable pub stop_decoded : String → String → Option SessionRecord → store.State → store.State
  stop_decoded response_url now none s = s
  stop_decoded response_url now (some session) s =
      or_else (store.put_session session.id (marshal_session (stopped response_url now session)) s)
        s

  unfoldable pub stop_with : String → StopSession → store.State → Outcome store.State
  unfolding stop_decoded
  stop_with now p s =
      let raw = bytes_or_nil (store.get_session p.session_id s) in
      if p.session_id ==ₛ ""
      then answer "REJECTED" s
      else if is_nil raw
      then answer "REJECTED" s
      else answer "ACCEPTED" (stop_decoded p.response_url now (unmarshal_session raw) s)

  unfoldable pub handle_stop_session :
      String → String → Option Bytes → store.State → Outcome store.State
  unfolding with_payload stop_with
  handle_stop_session now mode body s = with_payload read_stop_session mode body (stop_with now) s

  unfoldable pub reserve_at :
      String → String → ReserveNow → Option Location → store.State → Outcome store.State
  unfolding unknown_location
  reserve_at now uuid p none s = unknown_location p.location_id s
  reserve_at now uuid p (some loc) s =
      let reservation = new_reservation p loc now uuid in
      answer "ACCEPTED"
        (or_else (store.put_reservation reservation.id (marshal_reservation reservation) s) s)

  unfoldable pub handle_reserve_now :
      Seed → String → String → String → Option Bytes → store.State → Outcome store.State
  unfolding with_payload reserve_at
  handle_reserve_now seed now uuid mode body s =
      with_payload read_reserve_now mode body
        (λ p s'. reserve_at now uuid p (location_by_id seed p.location_id) s') s

  unfoldable pub cancel_with : String → store.State → Outcome store.State
  cancel_with id s =
      if is_nil (bytes_or_nil (store.get_reservation id s))
      then answer "REJECTED" s
      else answer "ACCEPTED" (or_else (store.delete_reservation id s) s)

  unfoldable pub handle_cancel_reservation :
      String → Option Bytes → store.State → Outcome store.State
  unfolding with_payload cancel_with
  handle_cancel_reservation mode body s =
      with_payload read_cancel_reservation mode body cancel_with s

  unfoldable pub unlock_at : UnlockConnector → Option Location → store.State → Outcome store.State
  unfolding unknown_location
  unlock_at p none s = unknown_location p.location_id s
  unlock_at p (some loc) s = record {
    state = s;
    reply = respond (ok (result_json "ACCEPTED"));
    pushes =
        if p.response_url ==ₛ ""
        then []
        else record {
          method = "POST";
          url = p.response_url;
          token = text_or_empty (store.get_emsp_own_token s);
          body = result_json "ACCEPTED";
        }
          ∷ [];
  }

  unfoldable pub handle_unlock_connector :
      Seed → String → Option Bytes → store.State → Outcome store.State
  unfolding with_payload unlock_at
  handle_unlock_connector seed mode body s =
      with_payload read_unlock_connector mode body
        (λ p s'. unlock_at p (location_by_id seed p.location_id) s') s

  unfoldable pub post_command :
      Seed → String → String → String → Option Bytes → store.State → Outcome store.State
  unfolding handle_start_session handle_stop_session handle_reserve_now handle_cancel_reservation
      handle_unlock_connector to_upper
  post_command seed now uuid name body s =
      let command = to_upper name in
      let mode = text_or_empty (store.get_mode s) in
      if command ==ₛ "START_SESSION"
      then handle_start_session seed now uuid mode body s
      else if command ==ₛ "STOP_SESSION"
      then handle_stop_session now mode body s
      else if command ==ₛ "RESERVE_NOW"
      then handle_reserve_now seed now uuid mode body s
      else if command ==ₛ "CANCEL_RESERVATION"
      then handle_cancel_reservation mode body s
      else if command ==ₛ "UNLOCK_CONNECTOR"
      then handle_unlock_connector seed mode body s
      else reply_with s (error 400 2003 ("Unknown command: " ++ command))
