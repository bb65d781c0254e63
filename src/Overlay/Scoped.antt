-- ===== src/Overlay/Scoped.antt =====
-- CorrectnessStore (hub/store_correctness.go): every method of the store goes to the overlay of the
-- active correctness session, or to the base store where there is none. GetBlob and UpdateBlob, which
-- always go to the base store, are no part of handlers.Store. And DeleteSession (correctness/manager.go)
-- with the overlay that it clears.
pub mod Laws
use Prim.Native.String.{◌++◌}
use ocpi_mock_hub.Prelude.{
  String, Bool, Option, none, some, ◌==ₛ◌, if◌then◌else◌, Dict, lookup, put, or_else, trim_space,
  without,
}
use ocpi_mock_hub.Store.{Store}
use ocpi_mock_hub.Correctness.Types.{Manager, Result, ok, err, ◌>>=◌}
use ocpi_mock_hub.Correctness.Manager.{delete_session}
use ocpi_mock_hub.Overlay.{OverlayState, default_overlay_state}
use ocpi_mock_hub.Overlay.Instance.{overlay_store}

-- the overlays by their blob's key, beside the base store; a blob that is missing is the default state
pub record ScopedState (base : Store) : Type 0 where
  pub inner : base.State
  pub overlays : Dict OverlayState

-- overlayBlobKey
unfoldable pub overlay_blob_key : String → String
unfolding trim_space
overlay_blob_key session =
    let id = trim_space session in "correctness:overlay:" ++ (if id ==ₛ "" then "default" else id)

unfoldable pub overlay_at : String → Dict OverlayState → OverlayState
unfolding default_overlay_state
overlay_at key overlays = or_else (lookup key overlays) default_overlay_state

-- ActiveOverlay: the blob's key of the active session, if it is stored
unfoldable pub key_of : String → Option String
unfolding overlay_blob_key
key_of id = some (overlay_blob_key id)

unfoldable pub active_overlay : Manager → Option String
unfolding key_of
active_overlay m =
    if m.active_id ==ₛ ""
    then none
    else elim (lookup m.active_id m.sessions) [ none ↦ none | some rt ↦ key_of m.active_id ]

module _ (base : Store) where
  unfoldable pub on_base : Option base.State → ScopedState base → Option (ScopedState base)
  on_base none s = none
  on_base (some inner) s = some (record s { inner = inner })

  unfoldable pub on_overlay :
      String → Option OverlayState → ScopedState base → Option (ScopedState base)
  on_overlay key none s = none
  on_overlay key (some o) s = some (record s { overlays = put key o s.overlays })

  -- the rest of DeleteSession, which clears the overlay; `cleared` says whether UpdateBlob succeeds,
  -- and its error is only logged
  unfoldable pub clear_overlay :
      String → Bool → ScopedState base → Manager → Manager × ScopedState base
  unfolding overlay_blob_key
  clear_overlay id cleared s m =
      if cleared
      then (m, record s { overlays = without (overlay_blob_key id) s.overlays })
      else (m, s)

  unfoldable pub delete_with_overlay :
      String → Bool → Manager → ScopedState base → Result (Manager × ScopedState base)
  unfolding delete_session clear_overlay
  delete_with_overlay id cleared m s = do
    m' ← delete_session id m
    ok (clear_overlay id cleared s m')

  -- `if overlay := s.overlay(); overlay != nil` of a method that reads, and of one that writes
  unfoldable pub read_scoped {ℓ} :
      {A : Type ℓ}
      → Option String
      → (OverlayState → Option A)
      → (base.State → Option A)
      → ScopedState base
      → Option A
  unfolding overlay_at
  read_scoped none f g s = g s.inner
  read_scoped (some key) f g s = f (overlay_at key s.overlays)

  unfoldable pub write_scoped :
      Option String
      → (OverlayState → Option OverlayState)
      → (base.State → Option base.State)
      → ScopedState base
      → Option (ScopedState base)
  unfolding overlay_at on_base on_overlay
  write_scoped none f g s = on_base (g s.inner) s
  write_scoped (some key) f g s = on_overlay key (f (overlay_at key s.overlays)) s

  -- the CorrectnessStore of a manager, of which only the active overlay counts
  abbrev pub correctness_store : Option String → Store
  correctness_store active = record {
    State = ScopedState base;
    get_token_b = read_scoped active overlay_store.get_token_b base.get_token_b;
    set_token_b = λ a. write_scoped active (overlay_store.set_token_b a) (base.set_token_b a);
    get_emsp_callback_url =
        read_scoped active overlay_store.get_emsp_callback_url base.get_emsp_callback_url;
    set_emsp_callback_url = λ a.
        write_scoped active (overlay_store.set_emsp_callback_url a) (base.set_emsp_callback_url a);
    get_emsp_credentials =
        read_scoped active overlay_store.get_emsp_credentials base.get_emsp_credentials;
    set_emsp_credentials = λ a.
        write_scoped active (overlay_store.set_emsp_credentials a) (base.set_emsp_credentials a);
    get_emsp_own_token =
        read_scoped active overlay_store.get_emsp_own_token base.get_emsp_own_token;
    set_emsp_own_token =
        λ a. write_scoped active (overlay_store.set_emsp_own_token a) (base.set_emsp_own_token a);
    get_emsp_versions_url =
        read_scoped active overlay_store.get_emsp_versions_url base.get_emsp_versions_url;
    set_emsp_versions_url = λ a.
        write_scoped active (overlay_store.set_emsp_versions_url a) (base.set_emsp_versions_url a);
    put_party = λ a b. write_scoped active (overlay_store.put_party a b) (base.put_party a b);
    get_party = λ a. read_scoped active (overlay_store.get_party a) (base.get_party a);
    get_party_by_token_b = λ a.
        read_scoped active (overlay_store.get_party_by_token_b a) (base.get_party_by_token_b a);
    delete_party = λ a. write_scoped active (overlay_store.delete_party a) (base.delete_party a);
    list_parties = read_scoped active overlay_store.list_parties base.list_parties;
    put_token =
        λ a b c d. write_scoped active (overlay_store.put_token a b c d) (base.put_token a b c d);
    get_token = λ a b c. read_scoped active (overlay_store.get_token a b c) (base.get_token a b c);
    list_tokens = read_scoped active overlay_store.list_tokens base.list_tokens;
    put_session = λ a b. write_scoped active (overlay_store.put_session a b) (base.put_session a b);
    get_session = λ a. read_scoped active (overlay_store.get_session a) (base.get_session a);
    list_sessions = read_scoped active overlay_store.list_sessions base.list_sessions;
    delete_session =
        λ a. write_scoped active (overlay_store.delete_session a) (base.delete_session a);
    put_cdr = λ a b. write_scoped active (overlay_store.put_cdr a b) (base.put_cdr a b);
    get_cdr = λ a. read_scoped active (overlay_store.get_cdr a) (base.get_cdr a);
    list_cdrs = read_scoped active overlay_store.list_cdrs base.list_cdrs;
    put_reservation =
        λ a b. write_scoped active (overlay_store.put_reservation a b) (base.put_reservation a b);
    get_reservation =
        λ a. read_scoped active (overlay_store.get_reservation a) (base.get_reservation a);
    list_reservations = read_scoped active overlay_store.list_reservations base.list_reservations;
    delete_reservation =
        λ a. write_scoped active (overlay_store.delete_reservation a) (base.delete_reservation a);
    put_charging_profile = λ a b.
        write_scoped active (overlay_store.put_charging_profile a b)
          (base.put_charging_profile a b);
    get_charging_profile = λ a.
        read_scoped active (overlay_store.get_charging_profile a) (base.get_charging_profile a);
    delete_charging_profile = λ a.
        write_scoped active (overlay_store.delete_charging_profile a)
          (base.delete_charging_profile a);
    get_mode = λ s. base.get_mode s.inner;
    set_mode = λ mode s. on_base (base.set_mode mode s.inner) s;
  }
