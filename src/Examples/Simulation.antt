-- ===== src/Examples/Simulation.antt =====
-- The theorems on the simulator at concrete inputs.
use ocpi_mock_hub.Prelude.{
  ◌≡◌, ◌≢◌, ◌⊎◌, refl, none, some, List, [], ◌∷◌, true, lookup, has, if◌then◌else◌,
}
use ocpi_mock_hub.Json.{doc, obj, get, str, Fields, unmarshal}
use ocpi_mock_hub.Response.{Push}
use ocpi_mock_hub.MemoryStore.{MemoryStore, get_session, get_reservation}
use ocpi_mock_hub.MemoryStore.Instance.{memory_store}
use ocpi_mock_hub.Records.{
  SessionRecord, marshal_session, unmarshal_session, marshal_reservation, marshal_tick_reservation,
  read_tick_reservation,
}
use ocpi_mock_hub.Records.RoundTrip.{unmarshal-marshal_session}
use ocpi_mock_hub.Lifecycle.Advance.{callback_pushes, advance_pending_to_active}
use ocpi_mock_hub.Lifecycle.Reservations.{process_reservation, is_due, is_expired, is_older}
use ocpi_mock_hub.Lifecycle.Tick.{tick, process_session, make_move, move_of}
use ocpi_mock_hub.Lifecycle.Machine.{IsStored, IsStep}
use ocpi_mock_hub.Lifecycle.Callbacks.{process_session-callback_once}
use ocpi_mock_hub.Lifecycle.Billing.{HasBill, HasNoBill, process_session-bills}
use ocpi_mock_hub.Lifecycle.Progress.{round, session-completes}
use ocpi_mock_hub.Lifecycle.Entries.{entries, ids, distinct}
use ocpi_mock_hub.Lifecycle.Round.{tick-IsStep}
use ocpi_mock_hub.Lifecycle.Expiry.{narrow, process_reservation-fate, process_reservation-forgets}
use ocpi_mock_hub.Examples.Worlds.{
  world, later, format_kwh, draws, simulator, pending, ended, two_sessions, reservation,
  one_reservation,
}

-- the record that a test compares goes through the store and back
unmarshal-marshal_session_example : unmarshal_session (marshal_session pending) ≡ some pending
unmarshal-marshal_session_example = unmarshal-marshal_session pending

IsStored-pending : IsStored "S1" pending two_sessions
unfolding get_session lookup
IsStored-pending = unmarshal-marshal_session pending

tick-IsStep_example :
    (m' : MemoryStore) × (pushes : List Push) × (tick memory_store world format_kwh simulator
        (λ i. draws)
        two_sessions
      ≡ some (m', pushes))
    × (next : SessionRecord) × IsStored "S2" next m'
    × IsStep "COMPLETED" next.status
unfolding entries distinct ids has
tick-IsStep_example =
    tick-IsStep world format_kwh simulator (λ i. draws) two_sessions (pending ∷ []) [] ended refl
      refl

process_session-bills_example :
    let m' =
      (process_session memory_store later format_kwh simulator "" draws
        (some pending)
        two_sessions).0 in
    HasNoBill later format_kwh simulator "" draws pending two_sessions m'
    ⊎ HasBill later format_kwh simulator "" draws pending two_sessions m'
process_session-bills_example =
    process_session-bills later format_kwh simulator "" draws pending two_sessions IsStored-pending

sends :
    (process_session memory_store world format_kwh simulator "" draws (some pending) two_sessions).1
    ≢ []
unfolding process_session make_move move_of is_older advance_pending_to_active callback_pushes
sends e = cc

process_session-callback_once_example :
    (next : SessionRecord) × IsStored "S1" next
      (process_session memory_store world format_kwh simulator "" draws
        (some pending)
        two_sessions).0
    × (callback_pushes simulator next ≡ [])
process_session-callback_once_example =
    process_session-callback_once world format_kwh simulator "" draws pending two_sessions sends

session-completes_example :
    (next : SessionRecord) × IsStored "S1" next (
      round format_kwh simulator "" later draws "S1"
        (round format_kwh simulator "" world draws "S1" two_sessions))
    × (next.status ≡ "COMPLETED")
unfolding is_older
session-completes_example =
    session-completes format_kwh simulator "" world later draws draws pending two_sessions 2000000
      IsStored-pending refl refl refl refl refl

process_reservation-fate_example :
    lookup "R1"
      (process_reservation memory_store simulator world
        (unmarshal read_tick_reservation (marshal_reservation reservation))
        one_reservation).0.reservations
    ≡ (if is_expired world (narrow reservation)
        then none
        else if is_due world simulator (narrow reservation)
        then some (marshal_tick_reservation (record (narrow reservation) { callback_sent = true }))
        else some (marshal_reservation reservation))
unfolding lookup
process_reservation-fate_example =
    process_reservation-fate world simulator reservation one_reservation refl

process_reservation-forgets_example :
    (fs : Fields) × (get_reservation "R1"
        (process_reservation memory_store simulator world
          (unmarshal read_tick_reservation (marshal_reservation reservation))
          one_reservation).0
      ≡ doc (obj fs))
    × (get "id" fs ≡ some (str "R1"))
    × (get "location_id" fs ≡ none)
    × (get "evse_uid" fs ≡ none)
    × (get "token_uid" fs ≡ none)
    × (get "last_updated" fs ≡ none)
unfolding lookup is_expired narrow is_due
process_reservation-forgets_example =
    process_reservation-forgets world simulator reservation one_reservation refl refl refl
