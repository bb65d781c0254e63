-- ===== src/Cdrs/Laws.antt =====
-- What the CDR receiver stores and gives back, over the in-memory store.
use ocpi_mock_hub.Prelude.{String, ◌≡◌, refl, ◌∙◌, ap, some, false, ◌==ₛ◌, lookup-put, eq_refl}
use ocpi_mock_hub.Json.{str, obj, Fields, Bytes, doc, get}
use ocpi_mock_hub.Paging.{RequestOrigin}
use ocpi_mock_hub.Response.{respond, ok_with, raw}
use ocpi_mock_hub.MemoryStore.{MemoryStore, put_cdr, get_cdr, or_nil}
use ocpi_mock_hub.MemoryStore.Instance.{memory_store}
use ocpi_mock_hub.Sessions.{is_foreign}
use ocpi_mock_hub.Cdrs.{
  created, post_fields, post_parsed, post_receiver_cdr, get_receiver_cdr, get_cdr_by_id,
}

get-put_cdr : (id : String) (b : Bytes) (m : MemoryStore) → get_cdr id (put_cdr id b m) ≡ b
unfolding get_cdr put_cdr
get-put_cdr id b m = ap or_nil (lookup-put id id b m.cdrs) ∙ rw (eq_refl id) refl

-- A CDR object with a non-empty id is created, and from then on both the receiver's GET by that id
-- and the sender's GET by the CDR's own party return the body that was posted.
pub post_receiver_cdr-get :
    (r : RequestOrigin) (cc pid id : String) (fs : Fields) (m : MemoryStore)
    → get "id" fs ≡ some (str id)
    → (id ==ₛ "") ≡ false
    → is_foreign cc pid (doc (obj fs)) ≡ false
    → let o = post_receiver_cdr memory_store r (some (doc (obj fs))) m in
      (o.reply ≡ respond (created r id))
      × ((get_receiver_cdr memory_store id o.state).reply ≡ respond (ok_with (raw (doc (obj fs)))))
      × ((get_cdr_by_id memory_store cc pid id o.state).reply
          ≡ respond (ok_with (raw (doc (obj fs)))))
unfolding post_receiver_cdr post_parsed post_fields get_receiver_cdr get_cdr_by_id
post_receiver_cdr-get r cc pid id fs m e named own =
    let stored = get-put_cdr id (doc (obj fs)) m in
    rw (e, named) (refl, rw stored refl, rw (stored, own) refl)
