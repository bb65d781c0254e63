-- ===== src/Sessions/Laws.antt =====
-- What the session handlers do to a stored session.
use ocpi_mock_hub.Prelude.{
  String, ◌≡◌, refl, ◌∙◌, ap, Option, none, some, Bool, true, false, ◌==ₛ◌, if◌then◌else◌,
  lookup-put, eq_refl, eq_iff, arith,
}
use ocpi_mock_hub.Json.{
  Json, null, str, arr, obj, Items, nil, cons, Fields, Bytes, doc, is_nil, get, put, without, merge,
  append, is_empty,
}
use ocpi_mock_hub.Json.Members.{get-put, get-without, get-merge, or_other}
use ocpi_mock_hub.Response.{Outcome, respond, ok, ok_with, raw, reply_with}
use ocpi_mock_hub.MemoryStore.{MemoryStore, put_session, get_session, or_nil}
use ocpi_mock_hub.MemoryStore.Instance.{memory_store}
use ocpi_mock_hub.Sessions.{
  is_foreign, list_of, with_identity, append_periods, patched, put_decoded, put_receiver_session,
  store_patched, patch_target, missing_stamp, patch_fields, patch_decoded, patch_body, with_record,
  patch_receiver_session, get_session_by_party_key,
}

-- the value of one member after a PATCH
abbrev pub patched_member : String → String → String → String → Fields → Fields → Option Json
patched_member cc pid id j patch target =
    if "party_id" ==ₛ j
    then some (str pid)
    else if "country_code" ==ₛ j
    then some (str cc)
    else if "id" ==ₛ j
    then some (str id)
    else if "charging_periods" ==ₛ j
    then if is_empty (list_of (get "charging_periods" patch))
      then get "charging_periods" target
      else some (
          arr (
            append (list_of (get "charging_periods" target))
              (list_of (get "charging_periods" patch))))
    else or_other (get j patch) (get j target)

get-rest :
    (j : String) (patch target : Fields)
    → get j (merge (without "charging_periods" patch) target)
      ≡ (if "charging_periods" ==ₛ j then get j target else or_other (get j patch) (get j target))
get-rest j patch target =
    get-merge j (without "charging_periods" patch) target
    ∙ rw (get-without "charging_periods" j patch) (by_key ("charging_periods" ==ₛ j))
  where
    by_key :
        (b : Bool)
        → or_other (if b then none else get j patch) (get j target)
          ≡ (if b then get j target else or_other (get j patch) (get j target))
    by_key true = refl
    by_key false = refl

get-append_periods :
    (j : String) (periods : Items) (target : Fields)
    → get j (append_periods periods target) ≡ (
        if is_empty periods
        then get j target
        else if "charging_periods" ==ₛ j
        then some (arr (append (list_of (get "charging_periods" target)) periods))
        else get j target)
unfolding append_periods
get-append_periods j nil target = refl
get-append_periods j (cons x xs) target = get-put "charging_periods" j _ target

get-with_identity :
    (cc pid id j : String) (fs : Fields)
    → get j (with_identity cc pid id fs) ≡ (
        if "party_id" ==ₛ j
        then some (str pid)
        else if "country_code" ==ₛ j
        then some (str cc)
        else if "id" ==ₛ j
        then some (str id)
        else get j fs)
unfolding with_identity
get-with_identity cc pid id j fs =
    rw
      (
        get-put "party_id" j (str pid) (put "country_code" (str cc) (put "id" (str id) fs)),
        get-put "country_code" j (str cc) (put "id" (str id) fs),
        get-put "id" j (str id) fs,
      )
      refl

get-patched :
    (cc pid id j : String) (patch target : Fields)
    → get j (patched cc pid id patch target) ≡ patched_member cc pid id j patch target
unfolding patched
get-patched cc pid id j patch target =
    let rest = merge (without "charging_periods" patch) target in
    let periods = list_of (get "charging_periods" patch) in
    rw
      (
        get-with_identity cc pid id j (append_periods periods rest),
        get-append_periods j periods rest,
        get-rest j patch target,
        get-rest "charging_periods" patch target,
      )
      (ground (arith, eq_iff "charging_periods" j))

-- the stored session, or what an outcome leaves, is this object
abbrev pub HasFields : String → Fields → MemoryStore → Type 0
HasFields id fs m = get_session id m ≡ doc (obj fs)

with_record-runs :
    (failure cc pid : String) (b : Bytes) (run : Bytes → MemoryStore → Outcome MemoryStore)
    (m : MemoryStore)
    → is_nil b ≡ false
    → is_foreign cc pid b ≡ false
    → with_record memory_store failure cc pid (some b) run m ≡ run b m
unfolding with_record
with_record-runs failure cc pid b run m h k = rw (with_record, h, k) refl

patch-runs :
    (cc pid id : String) (patch target : Fields) (m : MemoryStore)
    → HasFields id target m
    → is_foreign cc pid (doc (obj target)) ≡ false
    → missing_stamp memory_store patch ≡ false
    → patch_receiver_session memory_store cc pid id (some (doc (obj patch))) m
      ≡ store_patched memory_store id (patched cc pid id patch target) m
unfolding patch_receiver_session patch_body patch_decoded patch_fields patch_target
patch-runs cc pid id patch target m h own stamp =
    ap
      (λ b.
        with_record memory_store "Failed to read session" cc pid (some b)
          (patch_body memory_store cc pid id (some (doc (obj patch)))) m)
      h
    ∙ with_record-runs "Failed to read session" cc pid (doc (obj target))
        (patch_body memory_store cc pid id (some (doc (obj patch)))) m refl own
    ∙ rw stamp refl

-- PATCH of a stored session by its own party, with a last_updated, is accepted and leaves an object
-- in which the id and the party are the URL's, a non-empty list of charging_periods stands behind
-- the old ones, and every other member is the patch's or, where the patch has none, the old one.
pub patch_receiver_session-merges :
    (cc pid id : String) (patch target : Fields) (m : MemoryStore)
    → HasFields id target m
    → is_foreign cc pid (doc (obj target)) ≡ false
    → missing_stamp memory_store patch ≡ false
    → let o = patch_receiver_session memory_store cc pid id (some (doc (obj patch))) m in
      (fs : Fields) × HasFields id fs o.state
      × (o.reply ≡ respond (ok null))
      × ((j : String) → get j fs ≡ patched_member cc pid id j patch target)
unfolding store_patched put_session get_session
patch_receiver_session-merges cc pid id patch target m h own stamp =
    let fs = patched cc pid id patch target in
    rw (patch-runs cc pid id patch target m h own stamp) (
      fs,
      ap or_nil (lookup-put id id (doc (obj fs)) m.sessions) ∙ rw (eq_refl id) refl,
      refl,
      λ j. get-patched cc pid id j patch target,
    )

is_foreign-put_id :
    (cc pid id : String) (fs : Fields)
    → is_foreign cc pid (doc (obj (put "id" (str id) fs))) ≡ is_foreign cc pid (doc (obj fs))
unfolding is_foreign
is_foreign-put_id cc pid id fs =
    rw (is_foreign, get-put "id" "country_code" (str id) fs, get-put "id" "party_id" (str id) fs)
      refl

-- A session object that PUT stored under an id is what GET by the object's own party returns, with
-- the URL's id in it.
pub get-put_receiver_session :
    (cc pid id : String) (fs : Fields) (m : MemoryStore)
    → is_foreign cc pid (doc (obj fs)) ≡ false
    → (get_session_by_party_key memory_store cc pid id
        (put_receiver_session memory_store id (some (doc (obj fs))) m).state).reply
      ≡ respond (ok_with (raw (doc (obj (put "id" (str id) fs)))))
unfolding get_session_by_party_key put_receiver_session put_decoded put_session get_session
get-put_receiver_session cc pid id fs m own =
    let b = doc (obj (put "id" (str id) fs)) in
    rw (lookup-put id id b m.sessions, eq_refl id)
      (ap (λ o. o.reply)
        (with_record-runs "Failed to get session" cc pid b (λ x s'. reply_with s' (ok_with (raw x)))
          (put_session id b m) refl (is_foreign-put_id cc pid id fs ∙ own)))
