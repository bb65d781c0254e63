-- ===== src/Tokens/Laws.antt =====
-- What the token receiver stores and gives back, over the in-memory store.
use ocpi_mock_hub.Prelude.{
  String, ◌≡◌, refl, ◌∙◌, ap, Option, some, ◌==ₛ◌, if◌then◌else◌, lookup-put, eq_refl,
}
use ocpi_mock_hub.Json.{Json, null, str, obj, Fields, Bytes, doc, get, put, merge}
use ocpi_mock_hub.Json.Members.{get-put, get-merge, or_other}
use ocpi_mock_hub.Response.{respond, ok, ok_with, raw}
use ocpi_mock_hub.MemoryStore.{MemoryStore, put_token, get_token, token_key, or_nil}
use ocpi_mock_hub.MemoryStore.Instance.{memory_store}
use ocpi_mock_hub.Tokens.{
  token_storage_uid, token_type_of, with_token_identity, store_token, put_parsed,
  put_receiver_token, merge_token, patch_token_fields, patch_parsed, patch_token_body,
  patch_receiver_token, get_token_by_composite_key,
}

get-put_token :
    (cc pid uid : String) (b : Bytes) (m : MemoryStore)
    → get_token cc pid uid (put_token cc pid uid b m) ≡ b
unfolding get_token put_token
get-put_token cc pid uid b m =
    ap or_nil (lookup-put (token_key cc pid uid) (token_key cc pid uid) b m.tokens)
    ∙ rw (eq_refl (token_key cc pid uid)) refl

module _ (cc pid uid query : String) where
  -- A token that PUT stored from an object is what GET with the same URL and type returns, with the
  -- country code, party id, uid and type of the request in it.
  pub get-put_receiver_token :
      (fs : Fields) (m : MemoryStore)
      → (get_token_by_composite_key memory_store cc pid uid query
          (put_receiver_token memory_store cc pid uid query (some (doc (obj fs))) m).state).reply
        ≡ respond
            (ok_with (raw (doc (obj (with_token_identity cc pid uid (token_type_of query) fs)))))
  unfolding get_token_by_composite_key put_receiver_token put_parsed store_token
  get-put_receiver_token fs m =
      let b = doc (obj (with_token_identity cc pid uid (token_type_of query) fs)) in
      rw (get-put_token cc pid (token_storage_uid uid (token_type_of query)) b m) refl

  -- the value of one member after a PATCH
  abbrev pub patched_token_member : String → Fields → Fields → Option Json
  patched_token_member j patch target =
      if "type" ==ₛ j
      then some (str (token_type_of query))
      else if "uid" ==ₛ j
      then some (str uid)
      else if "party_id" ==ₛ j
      then some (str pid)
      else if "country_code" ==ₛ j
      then some (str cc)
      else or_other (get j patch) (get j target)

  get-with_token_identity :
      (j : String) (patch target : Fields)
      → get j (with_token_identity cc pid uid (token_type_of query) (merge patch target))
        ≡ patched_token_member j patch target
  unfolding with_token_identity
  get-with_token_identity j patch target =
      let fs = merge patch target in
      let a = put "country_code" (str cc) fs in
      let b = put "party_id" (str pid) a in
      rw
        (
          get-put "type" j (str (token_type_of query)) (put "uid" (str uid) b),
          get-put "uid" j (str uid) b,
          get-put "party_id" j (str pid) a,
          get-put "country_code" j (str cc) fs,
          get-merge j patch target,
        )
        refl

  -- PATCH of a stored token, with a last_updated, is accepted and leaves an object in which the
  -- party, uid and type are the request's and every other member is the patch's or, where the patch
  -- has none, the old one.
  pub patch_receiver_token-merges :
      (patch target : Fields) (stamp : Json) (m : MemoryStore)
      → get_token cc pid (token_storage_uid uid (token_type_of query)) m ≡ doc (obj target)
      → get "last_updated" patch ≡ some stamp
      → let o = patch_receiver_token memory_store cc pid uid query (some (doc (obj patch))) m in
        (fs : Fields) × (get_token cc pid (token_storage_uid uid (token_type_of query)) o.state
          ≡ doc (obj fs))
        × (o.reply ≡ respond (ok null))
        × ((j : String) → get j fs ≡ patched_token_member j patch target)
  unfolding patch_receiver_token patch_token_body patch_parsed patch_token_fields merge_token
      store_token
  patch_receiver_token-merges patch target stamp m h e =
      let fs = with_token_identity cc pid uid (token_type_of query) (merge patch target) in
      rw (h, patch_token_fields, e, h)
        (
          fs,
          get-put_token cc pid (token_storage_uid uid (token_type_of query)) (doc (obj fs)) m,
          refl,
          λ j. get-with_token_identity j patch target,
        )
