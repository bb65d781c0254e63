-- ===== src/Lifecycle/Billing.antt =====
-- The CDRs of the simulator (simulation/lifecycle.go).
use ocpi_mock_hub.Prelude.{String, ◌≡◌, refl, some, ◌⊎◌, inl, inr, or_else, put}
use Prim.Native.String.{◌++◌}
use ocpi_mock_hub.Json.{Float64, Fields, get, doc, obj, str, num}
use ocpi_mock_hub.Store.{bytes_or_nil}
use ocpi_mock_hub.MemoryStore.{MemoryStore, get_session, put_session, put_cdr}
use ocpi_mock_hub.MemoryStore.Instance.{memory_store}
use ocpi_mock_hub.Records.{SessionRecord}
use ocpi_mock_hub.Lifecycle.Numbers.{Draws, Costs, costs}
use ocpi_mock_hub.Lifecycle.Advance.{
  Simulator, World, now_text, activated, save, metered, advance_pending_to_active,
  update_active_session,
}
use ocpi_mock_hub.Lifecycle.Complete.{completed, save_cdr, cdr_fields, complete_session}
use ocpi_mock_hub.Lifecycle.Tick.{
  active_since, Move, stay, advance, meter, complete, move_of, make_move, process_session,
}
use ocpi_mock_hub.Lifecycle.Machine.{IsStored, save-IsStored, activated-id, completed-id}

-- the members of a CDR that repeat the session
abbrev pub IsCdrOf : String → SessionRecord → Fields → Type 0
IsCdrOf cdr_id s fs =
    (get "id" fs ≡ some (str cdr_id))
    × (get "session_id" fs ≡ some (str s.id))
    × (get "total_energy" fs ≡ some (num s.kwh))
    × (get "total_cost" fs ≡ some s.total_cost)
    × (get "currency" fs ≡ some (str s.currency))

cdr_fields-IsCdrOf :
    (w : World) (c : Costs) (format_kwh : Float64 → String) (sim : Simulator) (cdr_id : String)
    (s : SessionRecord)
    → IsCdrOf cdr_id s (cdr_fields w c format_kwh sim.seed cdr_id s)
unfolding cdr_fields get
cdr_fields-IsCdrOf w c format_kwh sim cdr_id s = (refl, refl, refl, refl, refl)

module _ (w : World) (format_kwh : Float64 → String) (sim : Simulator) (base : String)
    (draws : Draws) where
  -- The session has ended and one CDR, its own, was put.
  pub HasBill : SessionRecord → MemoryStore → MemoryStore → Type 0
  HasBill s m m' =
      (next : SessionRecord) × (fs : Fields) × IsStored s.id next m'
      × (next.status ≡ "COMPLETED")
      × (m'.cdrs ≡ put ("CDR-" ++ draws.uuid) (doc (obj fs)) m.cdrs)
      × IsCdrOf ("CDR-" ++ draws.uuid) next fs

  -- The CDRs are as before, and the session has not ended.
  pub HasNoBill : SessionRecord → MemoryStore → MemoryStore → Type 0
  HasNoBill s m m' =
      (m'.cdrs ≡ m.cdrs)
      × (next : SessionRecord) × IsStored s.id next m'
      × ((next.status ≡ s.status) ⊎ (next.status ≡ "ACTIVE"))

  pub complete-HasBill :
      (s : SessionRecord) (m : MemoryStore)
      → HasBill s m (make_move memory_store w format_kwh sim base draws s complete m).0
  unfolding HasBill make_move complete_session save save_cdr put_cdr put_session get_session
      completed
  complete-HasBill s m =
      let c = costs w.numbers w.now (or_else (w.clock.parse s.start_date_time) 0) draws in
      let next = completed w c s in
      let id = "CDR-" ++ draws.uuid in
      (
        next,
        cdr_fields w c format_kwh sim.seed id next,
        save-IsStored sim w next s.id (completed-id w c s) m,
        refl,
        refl,
        cdr_fields-IsCdrOf w c format_kwh sim id next,
      )

  make_move-bills :
      (s : SessionRecord) (m : MemoryStore)
      → IsStored s.id s m
      → (move : Move)
      → let m' = (make_move memory_store w format_kwh sim base draws s move m).0 in
        HasNoBill s m m' ⊎ HasBill s m m'
  unfolding HasNoBill make_move advance_pending_to_active update_active_session save put_session
      get_session activated metered
  make_move-bills s m h stay = inl (refl, s, h, inl refl)
  make_move-bills s m h meter =
      let profile = bytes_or_nil (memory_store.get_charging_profile s.id m) in
      let next = metered w sim.session_duration_s (active_since w s) draws.first profile s in
      inl (refl, next, save-IsStored sim w next s.id refl m, inl refl)
  make_move-bills s m h advance =
      let next = activated (now_text w) s in
      inl (refl, next, save-IsStored sim w next s.id (activated-id (now_text w) s) m, inr refl)
  make_move-bills s m h complete = inr (complete-HasBill s m)

  -- A round over a stored session leaves the CDRs as they were and the session with its old status
  -- or ACTIVE; or it leaves the session COMPLETED and puts one CDR, which has the id, energy, cost
  -- and currency of the session as it is now stored.
  pub process_session-bills :
      (s : SessionRecord) (m : MemoryStore)
      → IsStored s.id s m
      → let m' = (process_session memory_store w format_kwh sim base draws (some s) m).0 in
        HasNoBill s m m' ⊎ HasBill s m m'
  unfolding process_session
  process_session-bills s m h = make_move-bills s m h (move_of w sim s)
