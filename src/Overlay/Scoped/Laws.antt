-- ===== src/Overlay/Scoped/Laws.antt =====
-- The stores that the operations of CorrectnessStore (hub/store_correctness.go) write to, with and
-- without an active session.
use ocpi_mock_hub.Prelude.{
  String, ◌≡◌, refl, ap, ◌∙◌, Option, none, some, List, [], ◌∷◌, false, ◌==ₛ◌, or_else, lookup-put,
  lookup, lookup-without, if◌then◌else◌, true, eq_refl,
}
use ocpi_mock_hub.Json.{Bytes}
use ocpi_mock_hub.Store.{Store}
use ocpi_mock_hub.Correctness.Types.{Manager}
use ocpi_mock_hub.Overlay.{OverlayState, default_overlay_state}
use ocpi_mock_hub.Overlay.Instance.{overlay_store}
use ocpi_mock_hub.Overlay.Scoped.{
  ScopedState, active_overlay, clear_overlay, overlay_blob_key, overlay_at, on_base, on_overlay,
  write_scoped, correctness_store,
}

-- a call of a method that writes, other than SetMode
pub data Call : Type 0 where
  set_token_b_call set_emsp_callback_url_call set_emsp_own_token_call set_emsp_versions_url_call
        delete_party_call delete_session_call delete_reservation_call delete_charging_profile_call :
      String → Call
  set_emsp_credentials_call : Bytes → Call
  put_party_call put_session_call put_cdr_call put_reservation_call put_charging_profile_call :
      String → Bytes → Call
  put_token_call : String → String → String → Bytes → Call

abbrev pub perform : (store : Store) → Call → store.State → Option store.State
perform store (set_token_b_call a) s = store.set_token_b a s
perform store (set_emsp_callback_url_call a) s = store.set_emsp_callback_url a s
perform store (set_emsp_credentials_call a) s = store.set_emsp_credentials a s
perform store (set_emsp_own_token_call a) s = store.set_emsp_own_token a s
perform store (set_emsp_versions_url_call a) s = store.set_emsp_versions_url a s
perform store (put_party_call a b) s = store.put_party a b s
perform store (delete_party_call a) s = store.delete_party a s
perform store (put_token_call a b c d) s = store.put_token a b c d s
perform store (put_session_call a b) s = store.put_session a b s
perform store (delete_session_call a) s = store.delete_session a s
perform store (put_cdr_call a b) s = store.put_cdr a b s
perform store (put_reservation_call a b) s = store.put_reservation a b s
perform store (delete_reservation_call a) s = store.delete_reservation a s
perform store (put_charging_profile_call a b) s = store.put_charging_profile a b s
perform store (delete_charging_profile_call a) s = store.delete_charging_profile a s

-- calls whose errors the caller drops
abbrev pub perform_all : (store : Store) → List Call → store.State → store.State
perform_all store [] s = s
perform_all store (call ∷ calls) s = perform_all store calls (or_else (perform store call s) s)

module _ (base : Store) where
  -- Where DeleteSession clears the session's overlay, a session that takes the id again starts with
  -- the default one, and every other overlay is as it was.
  clear_overlay-fresh :
      (id : String) (s : ScopedState base) (m : Manager)
      → let overlays = (clear_overlay base id true s m).1.overlays in
        (overlay_at (overlay_blob_key id) overlays ≡ default_overlay_state)
        × ((key : String)
            → (overlay_blob_key id ==ₛ key) ≡ false
            → overlay_at key overlays ≡ overlay_at key s.overlays)
  unfolding clear_overlay overlay_at
  clear_overlay-fresh id s m = (
    ap (λ o. or_else o default_overlay_state)
        (lookup-without (overlay_blob_key id) (overlay_blob_key id) s.overlays
          ∙ ap (λ b. if b then none else lookup (overlay_blob_key id) s.overlays)
              (eq_refl (overlay_blob_key id))),
    λ key other.
        ap (λ o. or_else o default_overlay_state)
          (lookup-without (overlay_blob_key id) key s.overlays
            ∙ ap (λ b. if b then none else lookup key s.overlays) other),
  )

  module _ (key : String) where
    perform-active :
        (call : Call) (s : ScopedState base)
        → perform (correctness_store base (some key)) call s
          ≡ on_overlay base key (perform overlay_store call (overlay_at key s.overlays)) s
    unfolding write_scoped
    perform-active (set_token_b_call a) s = refl
    perform-active (set_emsp_callback_url_call a) s = refl
    perform-active (set_emsp_credentials_call a) s = refl
    perform-active (set_emsp_own_token_call a) s = refl
    perform-active (set_emsp_versions_url_call a) s = refl
    perform-active (put_party_call a b) s = refl
    perform-active (delete_party_call a) s = refl
    perform-active (put_token_call a b c d) s = refl
    perform-active (put_session_call a b) s = refl
    perform-active (delete_session_call a) s = refl
    perform-active (put_cdr_call a b) s = refl
    perform-active (put_reservation_call a b) s = refl
    perform-active (delete_reservation_call a) s = refl
    perform-active (put_charging_profile_call a b) s = refl
    perform-active (delete_charging_profile_call a) s = refl

    abbrev active : ScopedState base → List Call → ScopedState base
    active s calls = perform_all (correctness_store base (some key)) calls s

    -- one call on the overlay, whatever it answers
    or_else-on_overlay :
        (o : Option OverlayState) (s : ScopedState base)
        → let s' = or_else (on_overlay base key o s) s in
          (s'.inner ≡ s.inner)
          × (overlay_at key s'.overlays ≡ or_else o (overlay_at key s.overlays))
          × ((j : String)
              → (key ==ₛ j) ≡ false
              → overlay_at j s'.overlays ≡ overlay_at j s.overlays)
    unfolding on_overlay overlay_at
    or_else-on_overlay none s = (refl, refl, λ j other. refl)
    or_else-on_overlay (some o) s = (
      refl,
      rw (lookup-put key key o s.overlays, eq_refl key) refl,
      λ j other. rw (lookup-put key j o s.overlays, other) refl,
    )

    perform_all-active :
        (calls : List Call) (s : ScopedState base)
        → ((active s calls).inner ≡ s.inner)
          × (overlay_at key (active s calls).overlays
              ≡ perform_all overlay_store calls (overlay_at key s.overlays))
          × ((j : String)
              → (key ==ₛ j) ≡ false
              → overlay_at j (active s calls).overlays ≡ overlay_at j s.overlays)
    perform_all-active [] s = (refl, refl, λ j other. refl)
    perform_all-active (call ∷ calls) s =
        let next = or_else (perform (correctness_store base (some key)) call s) s in
        let step = or_else-on_overlay (perform overlay_store call (overlay_at key s.overlays)) s in
        let same = ap (λ o. or_else o s) (perform-active call s) in
        let rest = perform_all-active calls next in
        (
          rest.0 ∙ ap (λ t. t.inner) same ∙ step.0,
          rest.1
              ∙ ap (perform_all overlay_store calls)
                  (ap (λ t. overlay_at key t.overlays) same ∙ step.1),
          λ j other. rest.2 j other ∙ ap (λ t. overlay_at j t.overlays) same ∙ step.2 j other,
        )

  perform-base :
      (call : Call) (s : ScopedState base)
      → perform (correctness_store base none) call s ≡ on_base base (perform base call s.inner) s
  unfolding write_scoped
  perform-base (set_token_b_call a) s = refl
  perform-base (set_emsp_callback_url_call a) s = refl
  perform-base (set_emsp_credentials_call a) s = refl
  perform-base (set_emsp_own_token_call a) s = refl
  perform-base (set_emsp_versions_url_call a) s = refl
  perform-base (put_party_call a b) s = refl
  perform-base (delete_party_call a) s = refl
  perform-base (put_token_call a b c d) s = refl
  perform-base (put_session_call a b) s = refl
  perform-base (delete_session_call a) s = refl
  perform-base (put_cdr_call a b) s = refl
  perform-base (put_reservation_call a b) s = refl
  perform-base (delete_reservation_call a) s = refl
  perform-base (put_charging_profile_call a b) s = refl
  perform-base (delete_charging_profile_call a) s = refl

  or_else-on_base :
      (o : Option base.State) (s : ScopedState base)
      → let s' = or_else (on_base base o s) s in
        (s'.inner ≡ or_else o s.inner) × (s'.overlays ≡ s.overlays)
  unfolding on_base
  or_else-on_base none s = (refl, refl)
  or_else-on_base (some inner) s = (refl, refl)

  -- what a sequence of calls leaves, with an active overlay and without
  unfoldable pub IsIsolated : Option String → List Call → ScopedState base → Type 0
  IsIsolated none calls s =
      let s' = perform_all (correctness_store base none) calls s in
      (s'.inner ≡ perform_all base calls s.inner) × (s'.overlays ≡ s.overlays)
  IsIsolated (some key) calls s =
      let s' = perform_all (correctness_store base (some key)) calls s in
      (s'.inner ≡ s.inner)
      × (overlay_at key s'.overlays ≡ perform_all overlay_store calls (overlay_at key s.overlays))
      × ((j : String) → (key ==ₛ j) ≡ false → overlay_at j s'.overlays ≡ overlay_at j s.overlays)

  perform_all-base : (calls : List Call) (s : ScopedState base) → IsIsolated none calls s
  unfolding IsIsolated
  perform_all-base [] s = (refl, refl)
  perform_all-base (call ∷ calls) s =
      let next = or_else (perform (correctness_store base none) call s) s in
      let step = or_else-on_base (perform base call s.inner) s in
      let same = ap (λ o. or_else o s) (perform-base call s) in
      let rest = perform_all-base calls next in
      (
        rest.0 ∙ ap (perform_all base calls) (ap (λ t. t.inner) same ∙ step.0),
        rest.1 ∙ ap (λ t. t.overlays) same ∙ step.1,
      )

  by_overlay : (o : Option String) (calls : List Call) (s : ScopedState base) → IsIsolated o calls s
  unfolding IsIsolated
  by_overlay none calls s = perform_all-base calls s
  by_overlay (some key) calls s = perform_all-active key calls s

  -- Over any base store, any sequence of writing calls of CorrectnessStore other than SetMode:
  -- while a correctness session is active, the base store and the overlays of other sessions stay
  -- as they are, and the active overlay becomes what the same calls on an OverlayStore make of it;
  -- without one, the overlays stay as they are, and the base store becomes what the same calls on
  -- it make of it.
  pub perform_all-IsIsolated :
      (m : Manager) (calls : List Call) (s : ScopedState base)
      → IsIsolated (active_overlay m) calls s
  perform_all-IsIsolated m calls s = by_overlay (active_overlay m) calls s
