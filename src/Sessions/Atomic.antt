-- ===== src/Sessions/Atomic.antt =====
-- A PATCH of a session that does not succeed (handlers/sessions.go).
use ocpi_mock_hub.Prelude.{
  String, ◌≡◌, refl, ◌⊎◌, inl, inr, Option, none, some, Bool-cases, Option-cases,
}
use ocpi_mock_hub.Json.{
  null, obj, Fields, end, Bytes, doc, is_nil, MapResult, map_error, nil_map, map_ok, unmarshal_map,
}
use ocpi_mock_hub.Response.{Outcome, respond, ok}
use ocpi_mock_hub.Store.{Store}
use ocpi_mock_hub.Sessions.{
  is_foreign, store_patched, patch_target, missing_stamp, patch_fields, patch_decoded, patch_body,
  with_record, patch_receiver_session,
}

-- The request was carried out, or the store is as it was.
abbrev pub IsAtomic : {S : Type 0} → S → Outcome S → Type 0
IsAtomic s o = (o.reply ≡ respond (ok null)) ⊎ (o.state ≡ s)

module _ (store : Store) (cc pid id : String) where
  store_patched-IsAtomic :
      (fs : Fields) (s : store.State) → IsAtomic s (store_patched store id fs s)
  unfolding store_patched
  store_patched-IsAtomic fs s = elim (Option-cases (store.put_session id (doc (obj fs)) s)) [
    | inl e ↦ rw (store_patched, e) (inr refl)
    | inr (s', e) ↦ rw (store_patched, e) (inl refl)
  ]

  patch_target-IsAtomic :
      (patch : Fields) (r : MapResult) (s : store.State)
      → IsAtomic s (patch_target store cc pid id patch r s)
  unfolding patch_target
  patch_target-IsAtomic patch map_error s = store_patched-IsAtomic _ s
  patch_target-IsAtomic patch nil_map s = inr refl
  patch_target-IsAtomic patch (map_ok target) s = store_patched-IsAtomic _ s

  patch_fields-IsAtomic :
      (patch : Fields) (b : Bytes) (s : store.State)
      → IsAtomic s (patch_fields store cc pid id patch b s)
  unfolding patch_fields
  patch_fields-IsAtomic patch b s = elim (Bool-cases (missing_stamp store patch)) [
    | inl e ↦ rw (patch_fields, e) (inr refl)
    | inr e ↦ rw (patch_fields, e) (patch_target-IsAtomic patch (unmarshal_map b) s)
  ]

  patch_decoded-IsAtomic :
      (r : MapResult) (b : Bytes) (s : store.State)
      → IsAtomic s (patch_decoded store cc pid id r b s)
  unfolding patch_decoded
  patch_decoded-IsAtomic map_error b s = inr refl
  patch_decoded-IsAtomic nil_map b s = patch_fields-IsAtomic end b s
  patch_decoded-IsAtomic (map_ok patch) b s = patch_fields-IsAtomic patch b s

  patch_body-IsAtomic :
      (body : Option Bytes) (b : Bytes) (s : store.State)
      → IsAtomic s (patch_body store cc pid id body b s)
  unfolding patch_body
  patch_body-IsAtomic none b s = inr refl
  patch_body-IsAtomic (some body) b s = patch_decoded-IsAtomic (unmarshal_map body) b s

  with_record-IsAtomic :
      (failure : String) (o : Option Bytes) (run : Bytes → store.State → Outcome store.State)
      (s : store.State)
      → ((b : Bytes) → IsAtomic s (run b s))
      → IsAtomic s (with_record store failure cc pid o run s)
  unfolding with_record
  with_record-IsAtomic failure none run s h = inr refl
  with_record-IsAtomic failure (some b) run s h = elim (Bool-cases (is_nil b)) [
    | inl e ↦ rw (with_record, e) (inr refl)
    | inr e ↦ elim (Bool-cases (is_foreign cc pid b)) [
      | inl f ↦ rw (with_record, e, f) (inr refl)
      | inr f ↦ rw (with_record, e, f) (h b)
    ]
  ]

  -- A PATCH of a session that is not answered with success, whether it fails, is refused or panics,
  -- leaves the store as it was, whatever store, stored session and body.
  pub patch_receiver_session-IsAtomic :
      (body : Option Bytes) (s : store.State)
      → IsAtomic s (patch_receiver_session store cc pid id body s)
  unfolding patch_receiver_session
  patch_receiver_session-IsAtomic body s =
      with_record-IsAtomic "Failed to read session" (store.get_session id s)
        (patch_body store cc pid id body) s (λ b. patch_body-IsAtomic body b s)
