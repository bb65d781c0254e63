-- ===== src/Lifecycle/Reservations.antt =====
-- processReservations (simulation/lifecycle.go).
use ocpi_mock_hub.Prelude.{
  ℕ, ◌+◌, ◌*◌, String, Option, none, some, List, [], ◌∷◌, ◌++◌, Bool, true, false, ◌&&◌, ◌==ₛ◌,
  if◌then◌else◌, not, or_else, ltb,
}
use ocpi_mock_hub.Json.{str, obj, end, field, Bytes, unmarshal}
use ocpi_mock_hub.Response.{Push}
use ocpi_mock_hub.Store.{Store}
use ocpi_mock_hub.Records.{TickReservation, read_tick_reservation, marshal_tick_reservation}
use ocpi_mock_hub.Lifecycle.Advance.{Simulator, World, push_to_emsp}

-- age > delay, for the instant that a text parses to, or the zero time; the zero time is older than
-- any delay that a time.Duration can hold.
unfoldable pub is_older : World → ℕ → String → Bool
is_older w delay_ns stamp = ltb (or_else (w.clock.parse stamp) 0 + delay_ns) w.now

abbrev pub delay_ns : Simulator → ℕ
delay_ns sim = sim.command_delay_ms * 1000000

-- the expiry date parses and lies before now
unfoldable pub is_expired : World → TickReservation → Bool
is_expired w r =
    if r.expiry_date ==ₛ ""
    then false
    else elim (w.clock.parse r.expiry_date) [ none ↦ false | some expiry ↦ ltb expiry w.now ]

unfoldable pub is_due : World → Simulator → TickReservation → Bool
unfolding is_older
is_due w sim r =
    not (r.response_url ==ₛ "") && not r.callback_sent && is_older w (delay_ns sim) r.created_at

module _ (store : Store) (sim : Simulator) (w : World) where
  unfoldable pub send_callback : TickReservation → store.State → store.State × List Push
  send_callback r st =
      if is_due w sim r
      then (
        or_else
            (store.put_reservation r.id
              (marshal_tick_reservation (record r { callback_sent = true })) st)
            st,
        push_to_emsp sim "POST" r.response_url (obj (field "result" (str "ACCEPTED") end)) ∷ [],
      )
      else (st, [])

  unfoldable pub drop_expired : TickReservation → store.State → store.State
  drop_expired r st = if is_expired w r then or_else (store.delete_reservation r.id st) st else st

  -- the body of the loop, on the record that the bytes decode to
  unfoldable pub process_reservation :
      Option TickReservation → store.State → store.State × List Push
  unfolding send_callback drop_expired
  process_reservation none st = (st, [])
  process_reservation (some r) st =
      let (st', pushes) = send_callback r st in (drop_expired r st', pushes)

  unfoldable pub reservation_loop : List Bytes → store.State → store.State × List Push
  unfolding process_reservation
  reservation_loop [] st = (st, [])
  reservation_loop (b ∷ bs) st =
      let (st', pushes) = process_reservation (unmarshal read_tick_reservation b) st in
      let (st'', more) = reservation_loop bs st' in (st'', pushes ++ more)

  unfoldable pub process_reservations : store.State → store.State × List Push
  unfolding reservation_loop
  process_reservations st = elim (store.list_reservations st) [
    | none ↦ (st, [])
    | some raw ↦ reservation_loop raw st
  ]
