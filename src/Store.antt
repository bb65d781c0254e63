-- ===== src/Store.antt =====
-- handlers.Store (handlers/handlers.go), the interface behind which the handlers, the simulation
-- and the middleware see a store. A read is `none`, and so is a write, where the Go method returns a
-- non-nil error; a write that fails leaves the state as it was.
use ocpi_mock_hub.Prelude.{String, Option, List, or_else}
use ocpi_mock_hub.Json.{Bytes, no_bytes}

pub record Store : Type 1 where
  pub State : Type 0
  pub get_token_b : State → Option String
  pub set_token_b : String → State → Option State
  pub get_emsp_callback_url : State → Option String
  pub set_emsp_callback_url : String → State → Option State
  pub get_emsp_credentials : State → Option Bytes
  pub set_emsp_credentials : Bytes → State → Option State
  pub get_emsp_own_token : State → Option String
  pub set_emsp_own_token : String → State → Option State
  pub get_emsp_versions_url : State → Option String
  pub set_emsp_versions_url : String → State → Option State
  pub put_party : String → Bytes → State → Option State
  pub get_party : String → State → Option Bytes
  pub get_party_by_token_b : String → State → Option Bytes
  pub delete_party : String → State → Option State
  pub list_parties : State → Option (List Bytes)
  pub put_token : String → String → String → Bytes → State → Option State
  pub get_token : String → String → String → State → Option Bytes
  pub list_tokens : State → Option (List Bytes)
  pub put_session : String → Bytes → State → Option State
  pub get_session : String → State → Option Bytes
  pub list_sessions : State → Option (List Bytes)
  pub delete_session : String → State → Option State
  pub put_cdr : String → Bytes → State → Option State
  pub get_cdr : String → State → Option Bytes
  pub list_cdrs : State → Option (List Bytes)
  pub put_reservation : String → Bytes → State → Option State
  pub get_reservation : String → State → Option Bytes
  pub list_reservations : State → Option (List Bytes)
  pub delete_reservation : String → State → Option State
  pub put_charging_profile : String → Bytes → State → Option State
  pub get_charging_profile : String → State → Option Bytes
  pub delete_charging_profile : String → State → Option State
  pub get_mode : State → Option String
  pub set_mode : String → State → Option State

-- `v, _ := store.Get…()`: the zero value where the error is dropped.
abbrev pub text_or_empty : Option String → String
text_or_empty o = or_else o ""

abbrev pub bytes_or_nil : Option Bytes → Bytes
bytes_or_nil o = or_else o no_bytes
