-- ===== src/Lifecycle/Round.antt =====
-- A whole Tick (simulation/lifecycle.go) over the in-memory store: the rounds do not interfere.
use ocpi_mock_hub.Prelude.{
  String, ◌≡◌, refl, ◌∙◌, ap, Option, none, some, List, [], ◌∷◌, ◌++◌, map, true, false, Bool-cases,
  inl, inr, ◌==ₛ◌, or_else, has, lookup, values, lookup-put, ℕ, suc,
}
use ocpi_mock_hub.Json.{Float64, Bytes, unmarshal}
use ocpi_mock_hub.Response.{Push}
use ocpi_mock_hub.Store.{bytes_or_nil, text_or_empty}
use ocpi_mock_hub.MemoryStore.{
  MemoryStore, get_session, put_session, put_cdr, or_nil, list_sessions, list_reservations,
  put_reservation, delete_reservation,
}
use ocpi_mock_hub.MemoryStore.Instance.{memory_store}
use ocpi_mock_hub.Records.{
  SessionRecord, TickReservation, marshal_session, unmarshal_session, read_tick_reservation,
}
use ocpi_mock_hub.Records.RoundTrip.{unmarshal-marshal_session}
use ocpi_mock_hub.Lifecycle.Numbers.{Draws, costs}
use ocpi_mock_hub.Lifecycle.Advance.{
  Simulator, World, now_text, activated, metered, save, advance_pending_to_active,
  update_active_session,
}
use ocpi_mock_hub.Lifecycle.Complete.{completed, save_cdr, complete_session}
use ocpi_mock_hub.Lifecycle.Reservations.{
  process_reservation, reservation_loop, process_reservations, send_callback, drop_expired, is_due,
  is_expired,
}
use ocpi_mock_hub.Lifecycle.Tick.{
  Move, stay, advance, meter, complete, move_of, make_move, process_session, session_loop, tick,
  push_base, active_since,
}
use ocpi_mock_hub.Lifecycle.Machine.{
  IsStored, IsStep, activated-id, completed-id, process_session-IsStep,
}
use ocpi_mock_hub.Lifecycle.Entries.{
  entries, ids, distinct, values-entries, not_head, in_tail, neither, before_other, lookup-entries,
}

get-save_other :
    (sim : Simulator) (w : World) (s : SessionRecord) (j id : String) (m : MemoryStore)
    → s.id ≡ id
    → (id ==ₛ j) ≡ false
    → get_session j (save memory_store sim w s m) ≡ get_session j m
unfolding save put_session get_session
get-save_other sim w s j id m same other =
    rw (lookup-put s.id j (marshal_session s) m.sessions, same, other) refl

module _ (w : World) (format_kwh : Float64 → String) where
  make_move-frame :
      (sim : Simulator) (base : String) (draws : Draws) (s : SessionRecord) (j : String)
      (m : MemoryStore)
      → (s.id ==ₛ j) ≡ false
      → (move : Move)
      → get_session j (make_move memory_store w format_kwh sim base draws s move m).0
        ≡ get_session j m
  unfolding make_move advance_pending_to_active update_active_session complete_session save_cdr
      put_cdr get_session metered
  make_move-frame sim base draws s j m other stay = refl
  make_move-frame sim base draws s j m other meter =
      let profile = bytes_or_nil (memory_store.get_charging_profile s.id m) in
      get-save_other sim w
        (metered w sim.session_duration_s (active_since w s) draws.first profile s) j s.id m refl
        other
  make_move-frame sim base draws s j m other advance =
      get-save_other sim w (activated (now_text w) s) j s.id m (activated-id (now_text w) s) other
  make_move-frame sim base draws s j m other complete =
      let c = costs w.numbers w.now (or_else (w.clock.parse s.start_date_time) 0) draws in
      get-save_other sim w (completed w c s) j s.id m (completed-id w c s) other

  -- what the loop does first with a session that it reads
  session_loop-cons :
      (sim : Simulator) (base : String) (draws : ℕ → Draws) (s : SessionRecord) (bs : List Bytes)
      (m : MemoryStore)
      → (session_loop memory_store w format_kwh sim base draws (marshal_session s ∷ bs) m).0
        ≡ (session_loop memory_store w format_kwh sim base
            (λ i. draws (suc i))
            bs
            (process_session memory_store w format_kwh sim base (draws 0) (some s) m).0).0
  unfolding session_loop
  session_loop-cons sim base draws s bs m =
      ap
        (λ o.
          (session_loop memory_store w format_kwh sim base (λ i. draws (suc i)) bs
            (process_session memory_store w format_kwh sim base (draws 0) o m).0).0)
        (unmarshal-marshal_session s)

  session_loop-frame :
      (sim : Simulator) (base : String) (draws : ℕ → Draws) (ss : List SessionRecord) (j : String)
      (m : MemoryStore)
      → has j (ids ss) ≡ false
      → get_session j
          (session_loop memory_store w format_kwh sim base draws (map marshal_session ss) m).0
        ≡ get_session j m
  unfolding has ids process_session session_loop
  session_loop-frame sim base draws [] j m h = refl
  session_loop-frame sim base draws (s ∷ ss) j m h =
      let (other, rest) = neither (s.id ==ₛ j) (has j (ids ss)) h in
      rw (session_loop-cons sim base draws s (map marshal_session ss) m) (
        session_loop-frame sim base (λ i. draws (suc i)) ss j
          (make_move memory_store w format_kwh sim base (draws 0) s (move_of w sim s) m).0 rest
        ∙ make_move-frame sim base (draws 0) s j m other (move_of w sim s))

  session_loop-IsStep :
      (sim : Simulator) (base : String) (draws : ℕ → Draws) (before after : List SessionRecord)
      (s : SessionRecord) (m : MemoryStore)
      → distinct (ids (before ++ s ∷ after)) ≡ true
      → IsStored s.id s m
      → (next : SessionRecord) × IsStored s.id next
          (session_loop memory_store w format_kwh sim base draws
            (map marshal_session (before ++ s ∷ after))
            m).0
        × IsStep s.status next.status
  unfolding distinct ids process_session
  session_loop-IsStep sim base draws [] after s m d h =
      let (next, stored, same, step) =
        process_session-IsStep w format_kwh sim base (draws 0) s m h in
      (
        next,
        rw (session_loop-cons sim base draws s (map marshal_session after) m) (
            ap unmarshal_session (
              session_loop-frame sim base (λ i. draws (suc i)) after s.id
                (process_session memory_store w format_kwh sim base (draws 0) (some s) m).0
                (not_head _ (distinct (ids after)) d))
            ∙ stored),
        step,
      )
  session_loop-IsStep sim base draws (b ∷ before) after s m d h =
      rw (session_loop-cons sim base draws b (map marshal_session (before ++ s ∷ after)) m) (
        session_loop-IsStep sim base (λ i. draws (suc i)) before after s
          (process_session memory_store w format_kwh sim base (draws 0) (some b) m).0
          (in_tail (has b.id (ids (before ++ s ∷ after))) _ d)
          (ap unmarshal_session (
              make_move-frame sim base (draws 0) b s.id m (before_other b s before after d)
                (move_of w sim b))
            ∙ h))

  process_reservation-sessions :
      (sim : Simulator) (o : Option TickReservation) (m : MemoryStore)
      → (process_reservation memory_store sim w o m).0.sessions ≡ m.sessions
  unfolding process_reservation send_callback drop_expired put_reservation delete_reservation
  process_reservation-sessions sim none m = refl
  process_reservation-sessions sim (some r) m = elim (Bool-cases (is_due w sim r)) [
    | inl e ↦ elim (Bool-cases (is_expired w r)) [ inl f ↦ rw (e, f) refl | inr f ↦ rw (e, f) refl ]
    | inr e ↦ elim (Bool-cases (is_expired w r)) [ inl f ↦ rw (e, f) refl | inr f ↦ rw (e, f) refl ]
  ]

  reservation_loop-sessions :
      (sim : Simulator) (bs : List Bytes) (m : MemoryStore)
      → (reservation_loop memory_store sim w bs m).0.sessions ≡ m.sessions
  unfolding reservation_loop
  reservation_loop-sessions sim [] m = refl
  reservation_loop-sessions sim (b ∷ bs) m =
      let o = unmarshal read_tick_reservation b in
      reservation_loop-sessions sim bs (process_reservation memory_store sim w o m).0
      ∙ process_reservation-sessions sim o m

  process_reservations-sessions :
      (sim : Simulator) (m : MemoryStore)
      → (process_reservations memory_store sim w m).0.sessions ≡ m.sessions
  unfolding process_reservations
  process_reservations-sessions sim m = reservation_loop-sessions sim (list_reservations m) m

  -- Over an in-memory store whose sessions have different ids, each its own key, and are stored as
  -- exactly what marshal_session makes of their records, a tick takes every one of them at most one
  -- step along the machine PENDING, ACTIVE, COMPLETED, with STOPPING before COMPLETED as well,
  -- whatever the others and the reservations do in it.
  pub tick-IsStep :
      (sim : Simulator) (draws : ℕ → Draws) (m : MemoryStore) (before after : List SessionRecord)
      (s : SessionRecord)
      → m.sessions ≡ entries (before ++ s ∷ after)
      → distinct (ids (before ++ s ∷ after)) ≡ true
      → (m' : MemoryStore) × (pushes : List Push) × (tick memory_store w format_kwh sim draws m
          ≡ some (m', pushes))
        × (next : SessionRecord) × IsStored s.id next m'
        × IsStep s.status next.status
  unfolding tick list_sessions get_session
  tick-IsStep sim draws m before after s e d =
      let sim' = record sim { auth_token = text_or_empty (memory_store.get_emsp_own_token m) } in
      let base = push_base memory_store sim m in
      let loop = session_loop memory_store w format_kwh sim' base draws (values m.sessions) m in
      let stored =
        ap (λ o. unmarshal_session (or_nil o))
          (ap (lookup s.id) e ∙ lookup-entries before after s d)
        ∙ unmarshal-marshal_session s in
      let (next, h, step) = session_loop-IsStep sim' base draws before after s m d stored in
      (
        _,
        _,
        refl,
        next,
        ap (λ x. unmarshal_session (or_nil (lookup s.id x)))
              (process_reservations-sessions sim' loop.0)
            ∙ rw (ap values e ∙ values-entries (before ++ s ∷ after)) h,
        step,
      )
