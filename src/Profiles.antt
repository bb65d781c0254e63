-- ===== src/Profiles.antt =====
-- The charging profile receiver (handlers/charging_profiles.go). url.ParseRequestURI is a parameter:
-- whether it accepts the address. `now` is the formatted time of the request.
pub mod Laws
use ocpi_mock_hub.Prelude.{
  String, Option, none, some, List, [], ◌∷◌, Bool, true, false, ◌==ₛ◌, if◌then◌else◌, ◌>>=◌,
}
use ocpi_mock_hub.Json.{
  Json, num, str, arr, obj, nil, Fields, end, field, Bytes, no_bytes, text, doc, is_nil, is_blank,
  get, unmarshal, read_string,
}
use ocpi_mock_hub.Response.{Outcome, respond, reply_with, ok, error, Push}
use ocpi_mock_hub.Store.{Store, text_or_empty, bytes_or_nil}

pub record SetProfile : Type 0 where
  pub charging_profile : Bytes
  pub response_url : String

-- a json.RawMessage: nil if the member is missing
abbrev to_raw : Option Json → Bytes
to_raw none = no_bytes
to_raw (some j) = doc j

unfoldable pub read_set_profile : Fields → Option SetProfile
read_set_profile fs = do
  response_url ← read_string "response_url" fs
  some (record {
    charging_profile = to_raw (get "charging_profile" fs);
    response_url = response_url;
  })

-- chargingProfileResponse, with the float64 30
abbrev pub sync_result : String → Json
sync_result r = obj (field "result" (str r) (field "timeout" (num 0x403e000000000000) end))

abbrev pub result_only : String → Json
result_only r = obj (field "result" (str r) end)

-- the profile that GET reports where none is stored
abbrev pub trivial_profile : Json
trivial_profile =
    obj (field "charging_rate_unit" (str "W") (field "charging_profile_period" (arr nil) end))

-- activeChargingProfileResult; the marshalling of a stored text that is no document fails
unfoldable pub active_result : String → Bytes → Option Json
active_result now (doc j) = some (
    obj (
      field "result" (str "ACCEPTED") (
        field "profile" (obj (field "start_date_time" (str now) (field "charging_profile" j end)))
          end)))
active_result now _ = none

abbrev pub or_trivial : Bytes → Bytes
or_trivial b = if is_blank b then doc trivial_profile else b

module _ (store : Store) (parses : String → Bool) where
  -- sendChargingProfileCallback
  unfoldable pub profile_callback : String → Option Json → store.State → List Push
  profile_callback url none s = []
  profile_callback url (some body) s =
      if url ==ₛ ""
      then []
      else if parses url
      then record {
        method = "POST";
        url = url;
        token = text_or_empty (store.get_emsp_own_token s);
        body = body;
      }
        ∷ []
      else []

  abbrev accepted_with : List Push → store.State → Outcome store.State
  accepted_with pushes s = record {
    state = s;
    reply = respond (ok (sync_result "ACCEPTED"));
    pushes = pushes;
  }

  -- The start of the three handlers: an address is required, and the session must be known.
  unfoldable pub with_session :
      String → String → (store.State → Outcome store.State) → store.State → Outcome store.State
  with_session url id run s =
      if url ==ₛ ""
      then reply_with s (error 400 2003 "response_url is required")
      else elim (store.get_session id s) [
        | none ↦ reply_with s (error 500 3000 "Failed to check session")
        | some b ↦ if is_nil b then reply_with s (ok (sync_result "UNKNOWN_SESSION")) else run s
      ]

  unfoldable pub store_profile : String → SetProfile → store.State → Outcome store.State
  unfolding profile_callback
  store_profile id p s = elim (store.put_charging_profile id p.charging_profile s) [
    | none ↦ reply_with s (error 500 3000 "Failed to persist profile")
    | some s' ↦
        accepted_with (profile_callback p.response_url (some (result_only "ACCEPTED")) s') s'
  ]

  -- PutChargingProfile
  unfoldable pub put_profile : String → Option Bytes → store.State → Outcome store.State
  unfolding with_session store_profile
  put_profile id none s = reply_with s (error 400 2000 "Failed to read body")
  put_profile id (some body) s = elim (unmarshal read_set_profile body) [
    | none ↦ reply_with s (error 400 2003 "Invalid JSON")
    | some p ↦ with_session p.response_url id (store_profile id p) s
  ]

  unfoldable pub report_profile : String → String → String → store.State → Outcome store.State
  unfolding profile_callback active_result
  report_profile now url id s =
      accepted_with
        (profile_callback url
          (active_result now (or_trivial (bytes_or_nil (store.get_charging_profile id s)))) s)
        s

  -- GetChargingProfile
  unfoldable pub get_profile : String → String → String → store.State → Outcome store.State
  unfolding with_session report_profile
  get_profile now url id s = with_session url id (report_profile now url id) s

  unfoldable pub clear_profile : String → String → store.State → Outcome store.State
  unfolding profile_callback
  clear_profile url id s =
      if is_blank (bytes_or_nil (store.get_charging_profile id s))
      then accepted_with (profile_callback url (some (result_only "UNKNOWN")) s) s
      else elim (store.delete_charging_profile id s) [
        | none ↦ reply_with s (error 500 3000 "Failed to delete profile")
        | some s' ↦ accepted_with (profile_callback url (some (result_only "ACCEPTED")) s') s'
      ]

  -- DeleteChargingProfile
  unfoldable pub delete_profile : String → String → store.State → Outcome store.State
  unfolding with_session clear_profile
  delete_profile url id s = with_session url id (clear_profile url id) s
