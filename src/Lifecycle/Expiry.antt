-- ===== src/Lifecycle/Expiry.antt =====
-- What processReservations (simulation/lifecycle.go) does to a reservation, over the in-memory store.
use ocpi_mock_hub.Prelude.{
  ◌≡◌, refl, Option, none, some, true, false, Bool-cases, inl, inr, if◌then◌else◌, lookup,
  lookup-put, lookup-without, eq_refl,
}
use ocpi_mock_hub.Json.{Bytes, doc, obj, Fields, get, unmarshal, str}
use ocpi_mock_hub.MemoryStore.{MemoryStore, put_reservation, delete_reservation, get_reservation}
use ocpi_mock_hub.MemoryStore.Instance.{memory_store}
use ocpi_mock_hub.Records.{
  ReservationRecord, marshal_reservation, TickReservation, read_tick_reservation,
  marshal_tick_reservation, tick_reservation_fields,
}
use ocpi_mock_hub.Records.RoundTrip.{members}
use ocpi_mock_hub.Lifecycle.Advance.{Simulator, World}
use ocpi_mock_hub.Lifecycle.Reservations.{
  is_due, is_expired, process_reservation, send_callback, drop_expired,
}

-- what the simulation reads of a reservation
unfoldable pub narrow : ReservationRecord → TickReservation
narrow r = record {
  id = r.id;
  expiry_date = r.expiry_date;
  status = r.status;
  response_url = r.response_url;
  created_at = r.created_at;
  callback_sent = r.callback_sent;
}

read-reservation :
    (r : ReservationRecord)
    → unmarshal read_tick_reservation (marshal_reservation r) ≡ some (narrow r)
unfolding read_tick_reservation marshal_reservation narrow get
read-reservation r = simp members

module _ (w : World) (sim : Simulator) where
  -- the reservation's bytes after a round
  fate : TickReservation → Option Bytes → Option Bytes
  fate r before =
      if is_expired w r
      then none
      else if is_due w sim r
      then some (marshal_tick_reservation (record r { callback_sent = true }))
      else before

  lookup-process_reservation :
      (r : TickReservation) (m : MemoryStore)
      → lookup r.id (process_reservation memory_store sim w (some r) m).0.reservations
        ≡ fate r (lookup r.id m.reservations)
  unfolding fate process_reservation send_callback drop_expired put_reservation delete_reservation
  lookup-process_reservation r m = elim (Bool-cases (is_due w sim r)) [
    | inl e ↦ elim (Bool-cases (is_expired w r)) [
      | inl f ↦ rw (e, f, lookup-without, eq_refl r.id) refl
      | inr f ↦ rw (e, f, lookup-put, eq_refl r.id) refl
    ]
    | inr e ↦ elim (Bool-cases (is_expired w r)) [
      | inl f ↦ rw (e, f, lookup-without, eq_refl r.id) refl
      | inr f ↦ rw (e, f) refl
    ]
  ]

  -- One round over a reservation that is stored as RESERVE_NOW stores it, under its own id: an
  -- expired one is gone; of one whose callback is due the simulator's own six members are stored,
  -- with the callback marked as sent; any other is left as it was.
  pub process_reservation-fate :
      (r : ReservationRecord) (m : MemoryStore)
      → lookup r.id m.reservations ≡ some (marshal_reservation r)
      → lookup r.id
          (process_reservation memory_store sim w
            (unmarshal read_tick_reservation (marshal_reservation r))
            m).0.reservations
        ≡ (if is_expired w (narrow r)
            then none
            else if is_due w sim (narrow r)
            then some (marshal_tick_reservation (record (narrow r) { callback_sent = true }))
            else some (marshal_reservation r))
  unfolding fate narrow
  process_reservation-fate r m h =
      rw (read-reservation r) (rw⁻¹ h (lookup-process_reservation (narrow r) m))

  -- Sending the callback of an unexpired reservation removes its location_id, evse_uid, token_uid
  -- and last_updated from the store.
  pub process_reservation-forgets :
      (r : ReservationRecord) (m : MemoryStore)
      → lookup r.id m.reservations ≡ some (marshal_reservation r)
      → is_expired w (narrow r) ≡ false
      → is_due w sim (narrow r) ≡ true
      → (fs : Fields) × (get_reservation r.id
            (process_reservation memory_store sim w
              (unmarshal read_tick_reservation (marshal_reservation r))
              m).0
          ≡ doc (obj fs))
        × (get "id" fs ≡ some (str r.id))
        × (get "location_id" fs ≡ none)
        × (get "evse_uid" fs ≡ none)
        × (get "token_uid" fs ≡ none)
        × (get "last_updated" fs ≡ none)
  unfolding get_reservation marshal_tick_reservation tick_reservation_fields get narrow
  process_reservation-forgets r m h kept due = (
    tick_reservation_fields (record (narrow r) { callback_sent = true }),
    rw (process_reservation-fate r m h, kept, due) refl,
    refl,
    simp members,
    simp members,
    simp members,
    simp members,
  )
