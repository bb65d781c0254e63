-- ===== src/Lifecycle/Machine.antt =====
-- The session state machine of Tick (simulation/lifecycle.go), over the in-memory store.
use ocpi_mock_hub.Prelude.{
  String, ◌≡◌, inl, inr, refl, some, Bool, true, false, ◌==ₛ◌, if◌then◌else◌, or_else, eq_iff,
  eq_refl, Bool-cases, lookup-put,
}
use ocpi_mock_hub.Json.{Float64}
use ocpi_mock_hub.MemoryStore
use ocpi_mock_hub.MemoryStore.{MemoryStore, get_session, put_session}
use ocpi_mock_hub.MemoryStore.Instance.{memory_store}
use ocpi_mock_hub.Records.{SessionRecord, unmarshal_session, marshal_session}
use ocpi_mock_hub.Records.RoundTrip.{unmarshal-marshal_session}
use ocpi_mock_hub.Lifecycle.Numbers.{Draws, Costs, costs}
use ocpi_mock_hub.Lifecycle.Advance.{
  Simulator, World, now_text, owes_callback, callback_done, activated, metered, save,
  advance_pending_to_active, update_active_session,
}
use ocpi_mock_hub.Lifecycle.Complete.{completed, save_cdr, complete_session}
use ocpi_mock_hub.Lifecycle.Tick.{
  Move, stay, advance, meter, complete, move_of, make_move, process_session,
}

-- The documented state machine: the statuses before and after one round.
pub data IsStep : String → String → Type 0 where
  waits : (status : String) → IsStep status status
  starts : IsStep "PENDING" "ACTIVE"
  ends : IsStep "ACTIVE" "COMPLETED"
  stops : IsStep "STOPPING" "COMPLETED"

-- the status that a move leads to
unfoldable pub moved : Move → String → String
moved stay status = status
moved meter status = status
moved advance status = "ACTIVE"
moved complete status = "COMPLETED"

callback_done-id : (s : SessionRecord) → (callback_done s).id ≡ s.id
unfolding callback_done
callback_done-id s = elim (Bool-cases (owes_callback s)) [ inl e ↦ rw e | inr e ↦ rw e ]

pub activated-id : (stamp : String) (s : SessionRecord) → (activated stamp s).id ≡ s.id
unfolding activated
activated-id stamp s = callback_done-id s

pub completed-id : (w : World) (c : Costs) (s : SessionRecord) → (completed w c s).id ≡ s.id
unfolding completed
completed-id w c s = callback_done-id s

-- the session `id` is stored as `s`
abbrev pub IsStored : String → SessionRecord → MemoryStore → Type 0
IsStored id s m = unmarshal_session (get_session id m) ≡ some s

get-save :
    (sim : Simulator) (w : World) (s : SessionRecord) (m : MemoryStore)
    → IsStored s.id s (save memory_store sim w s m)
unfolding save put_session get_session
get-save sim w s m =
    rw (
      lookup-put s.id s.id (marshal_session s) m.sessions,
      eq_refl s.id,
      unmarshal-marshal_session s,
    )

-- A saved record is read back.
pub save-IsStored :
    (sim : Simulator) (w : World) (s : SessionRecord) (id : String)
    → s.id ≡ id
    → (m : MemoryStore) → IsStored id s (save memory_store sim w s m)
save-IsStored sim w s id e m = rw⁻¹ e (get-save sim w s m)

module _ (w : World) (format_kwh : Float64 → String) (sim : Simulator) (base : String)
    (draws : Draws) where
  abbrev after : SessionRecord → MemoryStore → MemoryStore
  after s m = (process_session memory_store w format_kwh sim base draws (some s) m).0

  -- what one move leaves under the session's id
  IsMoved : SessionRecord → Move → MemoryStore → Type 0
  IsMoved s move m =
      (next : SessionRecord) × IsStored s.id next
        (make_move memory_store w format_kwh sim base draws s move m).0
      × (next.id ≡ s.id)
      × (next.status ≡ moved move s.status)

  make_move-IsMoved :
      (s : SessionRecord) (m : MemoryStore) → IsStored s.id s m → (move : Move) → IsMoved s move m
  unfolding IsMoved make_move moved advance_pending_to_active update_active_session complete_session
      save_cdr activated metered completed MemoryStore.put_cdr get_session
  make_move-IsMoved s m h stay = (s, h, refl, refl)
  make_move-IsMoved s m h advance =
      let next = activated (now_text w) s in
      (
        next,
        save-IsStored sim w next s.id (activated-id (now_text w) s) m,
        activated-id (now_text w) s,
        refl,
      )
  make_move-IsMoved s m h meter =
      (_, save-IsStored sim w (metered w _ _ _ _ s) s.id refl m, refl, refl)
  make_move-IsMoved s m h complete =
      let c = costs w.numbers w.now (or_else (w.clock.parse s.start_date_time) 0) draws in
      (
        completed w c s,
        save-IsStored sim w (completed w c s) s.id (completed-id w c s) m,
        completed-id w c s,
        refl,
      )

  waits_if :
      (status : String) (b : Bool) (move : Move)
      → (b ≡ true → IsStep status (moved move status))
      → IsStep status (moved (if b then move else stay) status)
  unfolding moved
  waits_if status true move h = h refl
  waits_if status false move h = waits status

  ends_if :
      (status : String) (b : Bool)
      → IsStep status "COMPLETED"
      → IsStep status (moved (if b then complete else meter) status)
  unfolding moved
  ends_if status true h = h
  ends_if status false h = waits status

  IsStep-from : (status at to : String) → (status ==ₛ at) ≡ true → IsStep at to → IsStep status to
  IsStep-from status at to e h = rw ((eq_iff status at).0 e) h

  move_of-IsStep : (s : SessionRecord) → IsStep s.status (moved (move_of w sim s) s.status)
  unfolding moved move_of
  move_of-IsStep s = elim (Bool-cases (s.status ==ₛ "PENDING")) [
    | inl p ↦
        rw p (waits_if s.status _ advance (λ h. IsStep-from s.status "PENDING" "ACTIVE" p starts))
    | inr p ↦ elim (Bool-cases (s.status ==ₛ "ACTIVE")) [
      | inl a ↦ rw (p, a) (ends_if s.status _ (IsStep-from s.status "ACTIVE" "COMPLETED" a ends))
      | inr a ↦
          rw (p, a)
            (waits_if s.status _ complete
              (λ h. IsStep-from s.status "STOPPING" "COMPLETED" h stops))
    ]
  ]

  -- One round over a stored session leaves a session under the same id whose status is the old one
  -- or the next one of the machine PENDING, ACTIVE, COMPLETED, with STOPPING before COMPLETED as
  -- well.
  pub process_session-IsStep :
      (s : SessionRecord) (m : MemoryStore)
      → IsStored s.id s m
      → (next : SessionRecord) × IsStored s.id next
          (process_session memory_store w format_kwh sim base draws (some s) m).0
        × (next.id ≡ s.id)
        × IsStep s.status next.status
  unfolding process_session IsMoved
  process_session-IsStep s m h =
      let (next, stored, same, status) = make_move-IsMoved s m h (move_of w sim s) in
      (next, stored, same, rw status (move_of-IsStep s))
