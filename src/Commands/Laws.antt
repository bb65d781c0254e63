-- ===== src/Commands/Laws.antt =====
-- What the commands of handlers/commands.go do to the store.
use ocpi_mock_hub.Prelude.{
  String, ◌≡◌, refl, ◌∙◌, ap, ◌⊎◌, inl, inr, Option, none, some, [], true, false, Bool-cases,
  Option-cases, ◌==ₛ◌, to_upper, lookup, lookup-put, lookup-without, eq_refl,
}
use Prim.Native.String.{◌++◌}
use ocpi_mock_hub.Json.{Fields, Bytes, is_nil, unmarshal}
use ocpi_mock_hub.Response.{Outcome, respond, ok}
use ocpi_mock_hub.Store.{Store, text_or_empty}
use ocpi_mock_hub.MemoryStore.{
  MemoryStore, get_session, put_session, get_reservation, delete_reservation, or_nil,
}
use ocpi_mock_hub.MemoryStore.Instance.{memory_store}
use ocpi_mock_hub.Seed.{Seed, Location, location_by_id}
use ocpi_mock_hub.Records.{SessionRecord, marshal_session, unmarshal_session}
use ocpi_mock_hub.Records.RoundTrip.{unmarshal-marshal_session}
use ocpi_mock_hub.Lifecycle.Machine.{IsStored}
use ocpi_mock_hub.Commands.{
  StartSession, read_start_session, read_stop_session, read_reserve_now, read_cancel_reservation,
  read_unlock_connector, result_json, new_session,
}
use ocpi_mock_hub.Commands.Handlers.{
  with_payload, start_at, handle_start_session, handle_stop_session, handle_reserve_now,
  cancel_with, handle_cancel_reservation, handle_unlock_connector, post_command,
}

-- the outcome of a handler that does nothing but answer
abbrev pub IsIdle : {S : Type 0} → S → Outcome S → Type 0
IsIdle s o = (o.state ≡ s) × (o.pushes ≡ [])

module _ (store : Store) where
  with_payload-rejects :
      {A : Type 0} (read : Fields → Option A) (mode : String) (body : Option Bytes)
      (run : A → store.State → Outcome store.State) (s : store.State)
      → (mode ==ₛ "reject") ≡ true
      → IsIdle s (with_payload store read mode body run s)
  unfolding with_payload
  with_payload-rejects read mode none run s e = (refl, refl)
  with_payload-rejects read mode (some body) run s e = elim (Option-cases (unmarshal read body)) [
    | inl n ↦ rw (with_payload, n) (refl, refl)
    | inr (p, h) ↦ rw (with_payload, h, e) (refl, refl)
  ]

  pub with_payload-runs :
      {A : Type 0} (read : Fields → Option A) (mode : String) (body : Bytes)
      (run : A → store.State → Outcome store.State) (s : store.State) (p : A)
      → unmarshal read body ≡ some p
      → (mode ==ₛ "reject") ≡ false
      → with_payload store read mode (some body) run s ≡ run p s
  unfolding with_payload
  with_payload-runs read mode body run s p h e = rw (with_payload, h, e) refl

  -- In the mode reject no command, of whatever name, body and location, changes the store or sends
  -- anything.
  pub post_command-rejects :
      (seed : Seed) (now uuid name : String) (body : Option Bytes) (s : store.State)
      → (text_or_empty (store.get_mode s) ==ₛ "reject") ≡ true
      → IsIdle s (post_command store seed now uuid name body s)
  unfolding post_command handle_start_session handle_stop_session handle_reserve_now
      handle_cancel_reservation handle_unlock_connector
  post_command-rejects seed now uuid name body s e =
      elim (Bool-cases (to_upper name ==ₛ "START_SESSION")) [
        | inl a ↦ rw a (with_payload-rejects read_start_session _ body _ s e)
        | inr a ↦ elim (Bool-cases (to_upper name ==ₛ "STOP_SESSION")) [
          | inl b ↦ rw (a, b) (with_payload-rejects read_stop_session _ body _ s e)
          | inr b ↦ elim (Bool-cases (to_upper name ==ₛ "RESERVE_NOW")) [
            | inl c ↦ rw (a, b, c) (with_payload-rejects read_reserve_now _ body _ s e)
            | inr c ↦ elim (Bool-cases (to_upper name ==ₛ "CANCEL_RESERVATION")) [
              | inl d ↦ rw (a, b, c, d) (with_payload-rejects read_cancel_reservation _ body _ s e)
              | inr d ↦ elim (Bool-cases (to_upper name ==ₛ "UNLOCK_CONNECTOR")) [
                | inl f ↦
                    rw (a, b, c, d, f) (with_payload-rejects read_unlock_connector _ body _ s e)
                | inr f ↦ rw (a, b, c, d, f) (refl, refl)
              ]
            ]
          ]
        ]
      ]

module _ (seed : Seed) (now uuid mode : String) (body : Bytes) (m : MemoryStore) where
  pub started :
      (p : StartSession) (loc : Location)
      → unmarshal read_start_session body ≡ some p
      → (mode ==ₛ "reject") ≡ false
      → location_by_id seed p.location_id ≡ some loc
      → handle_start_session memory_store seed now uuid mode (some body) m
        ≡ start_at memory_store now uuid p (some loc) m
  unfolding handle_start_session
  started p loc decoded allowed found =
      with_payload-runs memory_store read_start_session mode body
        (λ q m'. start_at memory_store now uuid q (location_by_id seed q.location_id) m') m p
        decoded allowed
      ∙ ap (λ l. start_at memory_store now uuid p l m) found

  -- the record of an accepted START_SESSION is what the store holds
  pub started-IsStored :
      (p : StartSession) (loc : Location)
      → unmarshal read_start_session body ≡ some p
      → (mode ==ₛ "reject") ≡ false
      → location_by_id seed p.location_id ≡ some loc
      → IsStored
          ("MOCK-" ++ uuid)
          (new_session p loc now uuid)
          (handle_start_session memory_store seed now uuid mode (some body) m).state
  unfolding start_at put_session get_session new_session
  started-IsStored p loc decoded allowed found =
      let s = new_session p loc now uuid in
      rw (started p loc decoded allowed found) (
        ap (λ o. unmarshal_session (or_nil o))
          (lookup-put ("MOCK-" ++ uuid) ("MOCK-" ++ uuid) (marshal_session s) m.sessions)
        ∙ rw (eq_refl ("MOCK-" ++ uuid)) (unmarshal-marshal_session s))

  -- START_SESSION of a known location, outside the mode reject, is accepted and stores, under MOCK-
  -- and the UUID's start, a PENDING session of the location's party with the command's response
  -- address and the callback not sent.
  handle_start_session-stores :
      (p : StartSession) (loc : Location)
      → unmarshal read_start_session body ≡ some p
      → (mode ==ₛ "reject") ≡ false
      → location_by_id seed p.location_id ≡ some loc
      → (s : SessionRecord) × IsStored
          ("MOCK-" ++ uuid)
          s
          (handle_start_session memory_store seed now uuid mode (some body) m).state
        × ((handle_start_session memory_store seed now uuid mode (some body) m).reply
            ≡ respond (ok (result_json "ACCEPTED")))
        × (s.status ≡ "PENDING")
        × (s.party_id ≡ loc.party_id)
        × (s.response_url ≡ p.response_url)
        × (s.callback_sent ≡ false)
  unfolding start_at put_session get_session new_session
  handle_start_session-stores p loc decoded allowed found = (
    new_session p loc now uuid,
    started-IsStored p loc decoded allowed found,
    rw (started p loc decoded allowed found) refl,
    refl,
    refl,
    refl,
    refl,
  )

  cancelled :
      (id : String)
      → let o = cancel_with memory_store id m in
        ((is_nil (get_reservation id m) ≡ false)
          × (o.reply ≡ respond (ok (result_json "ACCEPTED")))
          × (lookup id o.state.reservations ≡ none))
        ⊎ ((is_nil (get_reservation id m) ≡ true)
            × (o.reply ≡ respond (ok (result_json "REJECTED")))
            × (o.state ≡ m))
  unfolding cancel_with delete_reservation
  cancelled id = elim (Bool-cases (is_nil (get_reservation id m))) [
    | inl e ↦ rw (cancel_with, e) (inr (refl, refl, refl))
    | inr e ↦
        rw (cancel_with, e)
          (inl (refl, refl, lookup-without id id m.reservations ∙ rw (eq_refl id) refl))
  ]

  -- CANCEL_RESERVATION, outside the mode reject, of a reservation that the store has is accepted,
  -- and the reservation is gone; of any other it is rejected, and the store is as it was.
  handle_cancel_reservation-cancels :
      (id : String)
      → unmarshal read_cancel_reservation body ≡ some id
      → (mode ==ₛ "reject") ≡ false
      → let o = handle_cancel_reservation memory_store mode (some body) m in
        ((is_nil (get_reservation id m) ≡ false)
          × (o.reply ≡ respond (ok (result_json "ACCEPTED")))
          × (lookup id o.state.reservations ≡ none))
        ⊎ ((is_nil (get_reservation id m) ≡ true)
            × (o.reply ≡ respond (ok (result_json "REJECTED")))
            × (o.state ≡ m))
  unfolding handle_cancel_reservation cancel_with delete_reservation
  handle_cancel_reservation-cancels id decoded allowed =
      rw
        (with_payload-runs memory_store read_cancel_reservation mode body (cancel_with memory_store)
          m id decoded allowed)
        (cancelled id)
