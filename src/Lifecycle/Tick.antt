-- ===== src/Lifecycle/Tick.antt =====
-- Tick (simulation/lifecycle.go): every stored session, as the list was read at the start, goes one step
-- of its state machine; then the reservations follow. `draws` gives each round its random values.
use ocpi_mock_hub.Prelude.{
  ℕ, suc, ◌+◌, ◌*◌, String, Option, none, some, List, [], ◌∷◌, ◌++◌, ◌==ₛ◌, if◌then◌else◌, or_else,
  ltb,
}
use ocpi_mock_hub.Json.{Float64, Bytes}
use ocpi_mock_hub.Response.{Push}
use ocpi_mock_hub.Store.{Store, text_or_empty}
use ocpi_mock_hub.Records.{SessionRecord, unmarshal_session}
use ocpi_mock_hub.Lifecycle.Numbers.{Draws}
use ocpi_mock_hub.Lifecycle.Advance.{
  Simulator, World, strip_versions_suffix, advance_pending_to_active, update_active_session,
}
use ocpi_mock_hub.Lifecycle.Complete.{complete_session}
use ocpi_mock_hub.Lifecycle.Reservations.{is_older, delay_ns, process_reservations}

-- the instant since when a session is active
unfoldable pub active_since : World → SessionRecord → ℕ
active_since w s =
    if s.activated_at ==ₛ ""
    then or_else (w.clock.parse s.created_at) 0
    else or_else (w.clock.parse s.activated_at) 0

abbrev pub duration_ns : Simulator → ℕ
duration_ns sim = sim.session_duration_s * 1000000000

-- What the switch of Tick does with a session.
pub data Move : Type 0 where
  stay advance meter complete : Move

unfoldable pub move_of : World → Simulator → SessionRecord → Move
unfolding is_older active_since
move_of w sim s =
    if s.status ==ₛ "PENDING"
    then (if is_older w (delay_ns sim) s.created_at then advance else stay)
    else if s.status ==ₛ "ACTIVE"
    then (if ltb (active_since w s + duration_ns sim) w.now then complete else meter)
    else if s.status ==ₛ "STOPPING"
    then complete
    else stay

-- the base URL that Tick pushes to
unfoldable pub push_base : (store : Store) → Simulator → store.State → String
unfolding strip_versions_suffix
push_base store sim st =
    let stored = text_or_empty (store.get_emsp_callback_url st) in
    strip_versions_suffix (if stored ==ₛ "" then sim.emsp_callback_url else stored)

module _ (store : Store) (w : World) (format_kwh : Float64 → String) where
  unfoldable pub make_move :
      Simulator → String → Draws → SessionRecord → Move → store.State → store.State × List Push
  make_move sim base draws s stay st = (st, [])
  make_move sim base draws s advance st = advance_pending_to_active store sim w base s st
  make_move sim base draws s meter st =
      (update_active_session store sim w (active_since w s) draws.first s st, [])
  make_move sim base draws s complete st = complete_session store sim w format_kwh base draws s st

  -- the body of the loop, on the record that the bytes decode to
  unfoldable pub process_session :
      Simulator → String → Draws → Option SessionRecord → store.State → store.State × List Push
  unfolding make_move
  process_session sim base draws none st = (st, [])
  process_session sim base draws (some s) st = make_move sim base draws s (move_of w sim s) st

  unfoldable pub session_loop :
      Simulator → String → (ℕ → Draws) → List Bytes → store.State → store.State × List Push
  unfolding process_session
  session_loop sim base draws [] st = (st, [])
  session_loop sim base draws (b ∷ bs) st =
      let (st', pushes) = process_session sim base (draws 0) (unmarshal_session b) st in
      let (st'', more) = session_loop sim base (λ i. draws (suc i)) bs st' in (st'', pushes ++ more)

  -- `none` where listing the sessions fails
  unfoldable pub tick : Simulator → (ℕ → Draws) → store.State → Option (store.State × List Push)
  unfolding session_loop process_reservations push_base
  tick sim draws st = elim (store.list_sessions st) [
    | none ↦ none
    | some raw ↦
        let sim' = record sim { auth_token = text_or_empty (store.get_emsp_own_token st) } in
        let (st', pushes) = session_loop sim' (push_base store sim st) draws raw st in
        let (st'', more) = process_reservations store sim' w st' in some (st'', pushes ++ more)
  ]
