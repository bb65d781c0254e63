-- ===== src/Commands/Lifespan.antt =====
-- A session from START_SESSION (handlers/commands.go) to its end in the simulator.
use ocpi_mock_hub.Prelude.{ℕ, ◌+◌, String, ◌≡◌, refl, some, true, false, ◌==ₛ◌, ltb}
use Prim.Native.String.{◌++◌}
use ocpi_mock_hub.Json.{Float64, Bytes, unmarshal}
use ocpi_mock_hub.MemoryStore.{MemoryStore}
use ocpi_mock_hub.MemoryStore.Instance.{memory_store}
use ocpi_mock_hub.Seed.{Seed, Location, location_by_id}
use ocpi_mock_hub.Records.{SessionRecord}
use ocpi_mock_hub.Lifecycle.Numbers.{Draws}
use ocpi_mock_hub.Lifecycle.Advance.{Simulator, World, now_text}
use ocpi_mock_hub.Lifecycle.Reservations.{is_older, delay_ns}
use ocpi_mock_hub.Lifecycle.Tick.{duration_ns}
use ocpi_mock_hub.Lifecycle.Machine.{IsStored}
use ocpi_mock_hub.Lifecycle.Progress.{round, session-completes}
use ocpi_mock_hub.Commands.{StartSession, read_start_session, new_session}
use ocpi_mock_hub.Commands.Handlers.{handle_start_session}
use ocpi_mock_hub.Commands.Laws.{started-IsStored}

module _ (seed : Seed) (now uuid mode : String) (body : Bytes) (m : MemoryStore) where
  -- A START_SESSION of a known location, outside the mode reject, leads to a COMPLETED session
  -- after two rounds of the simulator, if the first comes later than the command delay after the
  -- command and the second later than the session duration after the first, whose formatted time is
  -- not empty and parses.
  pub handle_start_session-completes :
      (format_kwh : Float64 → String) (sim : Simulator) (base : String) (w w' : World)
      (draws draws' : Draws) (p : StartSession) (loc : Location) (t : ℕ)
      → unmarshal read_start_session body ≡ some p
      → (mode ==ₛ "reject") ≡ false
      → location_by_id seed p.location_id ≡ some loc
      → is_older w (delay_ns sim) now ≡ true
      → w'.clock.parse (now_text w) ≡ some t
      → (now_text w ==ₛ "") ≡ false
      → ltb (t + duration_ns sim) w'.now ≡ true
      → let id = "MOCK-" ++ uuid in
        let m' = (handle_start_session memory_store seed now uuid mode (some body) m).state in
        (next : SessionRecord) × IsStored id next
          (round format_kwh sim base w' draws' id (round format_kwh sim base w draws id m'))
        × (next.status ≡ "COMPLETED")
  unfolding new_session
  handle_start_session-completes format_kwh sim base w w' draws draws' p loc t decoded allowed found
        old parsed filled late =
      session-completes format_kwh sim base w w' draws draws' (new_session p loc now uuid)
        (handle_start_session memory_store seed now uuid mode (some body) m).state t
        (started-IsStored seed now uuid mode body m p loc decoded allowed found) refl old parsed
        filled late
