-- ===== src/Lifecycle/Progress.antt =====
-- Sessions do end (simulation/lifecycle.go): the conditions on time under which the rounds take a
-- PENDING session to COMPLETED.
use ocpi_mock_hub.Prelude.{
  ℕ, ◌+◌, String, ◌≡◌, refl, ◌∙◌, ap, some, true, false, ◌==ₛ◌, or_else, ltb,
}
use ocpi_mock_hub.Json.{Float64}
use ocpi_mock_hub.MemoryStore.{MemoryStore, get_session, put_cdr}
use ocpi_mock_hub.MemoryStore.Instance.{memory_store}
use ocpi_mock_hub.Records.{SessionRecord, unmarshal_session}
use ocpi_mock_hub.Lifecycle.Numbers.{Draws, costs}
use ocpi_mock_hub.Lifecycle.Advance.{
  Simulator, World, now_text, activated, advance_pending_to_active,
}
use ocpi_mock_hub.Lifecycle.Complete.{completed, save_cdr, complete_session}
use ocpi_mock_hub.Lifecycle.Reservations.{is_older, delay_ns}
use ocpi_mock_hub.Lifecycle.Tick.{
  Move, advance, complete, active_since, duration_ns, move_of, make_move, process_session,
}
use ocpi_mock_hub.Lifecycle.Machine.{IsStored, save-IsStored, activated-id, completed-id}

module _ (format_kwh : Float64 → String) (sim : Simulator) (base : String) where
  -- one round over the session that is stored under an id
  unfoldable pub round : World → Draws → String → MemoryStore → MemoryStore
  round w draws id m =
      (process_session memory_store w format_kwh sim base draws
        (unmarshal_session (get_session id m)) m).0

  pub round-move :
      (w : World) (draws : Draws) (s : SessionRecord) (m : MemoryStore) (id : String) (move : Move)
      → IsStored id s m
      → move_of w sim s ≡ move
      → round w draws id m ≡ (make_move memory_store w format_kwh sim base draws s move m).0
  unfolding round process_session
  round-move w draws s m id move h e =
      ap (λ o. (process_session memory_store w format_kwh sim base draws o m).0) h
      ∙ ap (λ v. (make_move memory_store w format_kwh sim base draws s v m).0) e

  move-activates :
      (w : World) (s : SessionRecord)
      → s.status ≡ "PENDING"
      → is_older w (delay_ns sim) s.created_at ≡ true
      → move_of w sim s ≡ advance
  unfolding move_of
  move-activates w s p old = rw (p, old)

  move-completes :
      (w : World) (stamp : String) (t : ℕ) (s : SessionRecord)
      → w.clock.parse stamp ≡ some t
      → (stamp ==ₛ "") ≡ false
      → ltb (t + duration_ns sim) w.now ≡ true
      → move_of w sim (activated stamp s) ≡ complete
  unfolding move_of activated active_since
  move-completes w stamp t s parsed filled late = rw (filled, parsed, late)

  round-activates :
      (w : World) (draws : Draws) (s : SessionRecord) (m : MemoryStore)
      → IsStored s.id s m
      → s.status ≡ "PENDING"
      → is_older w (delay_ns sim) s.created_at ≡ true
      → IsStored s.id (activated (now_text w) s) (round w draws s.id m)
  unfolding make_move advance_pending_to_active
  round-activates w draws s m h p old =
      rw (round-move w draws s m s.id advance h (move-activates w s p old))
        (save-IsStored sim w (activated (now_text w) s) s.id (activated-id (now_text w) s) m)

  -- A PENDING session that is older than the command delay is COMPLETED after two rounds, if the
  -- second comes later than the session duration after the first, whose formatted time is not empty
  -- and parses.
  pub session-completes :
      (w w' : World) (draws draws' : Draws) (s : SessionRecord) (m : MemoryStore) (t : ℕ)
      → IsStored s.id s m
      → s.status ≡ "PENDING"
      → is_older w (delay_ns sim) s.created_at ≡ true
      → w'.clock.parse (now_text w) ≡ some t
      → (now_text w ==ₛ "") ≡ false
      → ltb (t + duration_ns sim) w'.now ≡ true
      → (next : SessionRecord) × IsStored s.id next (round w' draws' s.id (round w draws s.id m))
        × (next.status ≡ "COMPLETED")
  unfolding make_move complete_session save_cdr put_cdr completed get_session
  session-completes w w' draws draws' s m t h p old parsed filled late =
      let active = activated (now_text w) s in
      let m' = round w draws s.id m in
      let c = costs w'.numbers w'.now (or_else (w'.clock.parse active.start_date_time) 0) draws' in
      let ended = completed w' c active in
      (
        ended,
        rw
            (round-move w' draws' active m' s.id complete (round-activates w draws s m h p old)
              (move-completes w' (now_text w) t s parsed filled late))
            (save-IsStored sim w' ended s.id
              (completed-id w' c active ∙ activated-id (now_text w) s) m'),
        refl,
      )
