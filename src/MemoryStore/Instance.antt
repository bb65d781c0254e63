-- ===== src/MemoryStore/Instance.antt =====
-- MemoryStore as a handlers.Store: no method returns an error.
use ocpi_mock_hub.Prelude.{some}
use ocpi_mock_hub.Store.{Store}
use ocpi_mock_hub.MemoryStore
use ocpi_mock_hub.MemoryStore.{MemoryStore}

abbrev pub memory_store : Store
memory_store = record {
  State = MemoryStore;
  get_token_b = λ m. some m.token_b;
  set_token_b = λ token m. some (record m { token_b = token });
  get_emsp_callback_url = λ m. some m.emsp_callback_url;
  set_emsp_callback_url = λ url m. some (record m { emsp_callback_url = url });
  get_emsp_credentials = λ m. some m.emsp_creds;
  set_emsp_credentials = λ creds m. some (record m { emsp_creds = creds });
  get_emsp_own_token = λ m. some m.emsp_own_token;
  set_emsp_own_token = λ token m. some (record m { emsp_own_token = token });
  get_emsp_versions_url = λ m. some m.emsp_versions_url;
  set_emsp_versions_url = λ url m. some (record m { emsp_versions_url = url });
  put_party = λ key state m. some (MemoryStore.put_party key state m);
  get_party = λ key m. some (MemoryStore.get_party key m);
  get_party_by_token_b = λ token m. some (MemoryStore.get_party_by_token_b token m);
  delete_party = λ key m. some (MemoryStore.delete_party key m);
  list_parties = λ m. some (MemoryStore.list_parties m);
  put_token = λ cc pid uid token m. some (MemoryStore.put_token cc pid uid token m);
  get_token = λ cc pid uid m. some (MemoryStore.get_token cc pid uid m);
  list_tokens = λ m. some (MemoryStore.list_tokens m);
  put_session = λ id session m. some (MemoryStore.put_session id session m);
  get_session = λ id m. some (MemoryStore.get_session id m);
  list_sessions = λ m. some (MemoryStore.list_sessions m);
  delete_session = λ id m. some (MemoryStore.delete_session id m);
  put_cdr = λ id cdr m. some (MemoryStore.put_cdr id cdr m);
  get_cdr = λ id m. some (MemoryStore.get_cdr id m);
  list_cdrs = λ m. some (MemoryStore.list_cdrs m);
  put_reservation = λ id reservation m. some (MemoryStore.put_reservation id reservation m);
  get_reservation = λ id m. some (MemoryStore.get_reservation id m);
  list_reservations = λ m. some (MemoryStore.list_reservations m);
  delete_reservation = λ id m. some (MemoryStore.delete_reservation id m);
  put_charging_profile = λ id profile m. some (MemoryStore.put_charging_profile id profile m);
  get_charging_profile = λ id m. some (MemoryStore.get_charging_profile id m);
  delete_charging_profile = λ id m. some (MemoryStore.delete_charging_profile id m);
  get_mode = λ m. some (MemoryStore.get_mode m);
  set_mode = λ mode m. some (record m { mode = mode });
}
