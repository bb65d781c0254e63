-- ===== src/Lifecycle/Callbacks.antt =====
-- The command callback of a session (simulation/lifecycle.go): it is not sent a second time.
use ocpi_mock_hub.Prelude.{
  String, ◌≡◌, ◌≢◌, refl, some, [], false, Bool-cases, inl, inr, or_else, arith,
}
use ocpi_mock_hub.Json.{Float64}
use ocpi_mock_hub.MemoryStore.{MemoryStore, get_session, put_cdr}
use ocpi_mock_hub.MemoryStore.Instance.{memory_store}
use ocpi_mock_hub.Records.{SessionRecord}
use ocpi_mock_hub.Lifecycle.Numbers.{Draws, Costs, costs}
use ocpi_mock_hub.Lifecycle.Advance.{
  Simulator, World, now_text, owes_callback, callback_done, callback_pushes, activated,
  advance_pending_to_active,
}
use ocpi_mock_hub.Lifecycle.Complete.{completed, save_cdr, complete_session}
use ocpi_mock_hub.Lifecycle.Tick.{
  Move, stay, advance, meter, complete, move_of, make_move, process_session,
}
use ocpi_mock_hub.Lifecycle.Machine.{IsStored, save-IsStored, activated-id, completed-id}

owes-callback_done : (s : SessionRecord) → owes_callback (callback_done s) ≡ false
unfolding callback_done
owes-callback_done s = elim (Bool-cases (owes_callback s)) [
  | inl e ↦ rw e (ground arith)
  | inr e ↦ rw e e
]

owes-activated : (stamp : String) (s : SessionRecord) → owes_callback (activated stamp s) ≡ false
unfolding activated
owes-activated stamp s = owes-callback_done s

owes-completed :
    (w : World) (c : Costs) (s : SessionRecord) → owes_callback (completed w c s) ≡ false
unfolding completed
owes-completed w c s = owes-callback_done s

pushes_none :
    (sim : Simulator) (s : SessionRecord) → owes_callback s ≡ false → callback_pushes sim s ≡ []
unfolding callback_pushes
pushes_none sim s e = rw e

module _ (w : World) (format_kwh : Float64 → String) (sim : Simulator) (base : String)
    (draws : Draws) where
  IsSettled : SessionRecord → Move → MemoryStore → Type 0
  IsSettled s move m =
      (next : SessionRecord) × IsStored s.id next
        (make_move memory_store w format_kwh sim base draws s move m).0
      × (callback_pushes sim next ≡ [])

  make_move-IsSettled :
      (s : SessionRecord) (m : MemoryStore) (move : Move)
      → (make_move memory_store w format_kwh sim base draws s move m).1 ≢ []
      → IsSettled s move m
  unfolding IsSettled make_move advance_pending_to_active complete_session save_cdr put_cdr
      get_session
  make_move-IsSettled s m stay h = elim (h refl) [ ]
  make_move-IsSettled s m meter h = elim (h refl) [ ]
  make_move-IsSettled s m advance h =
      let next = activated (now_text w) s in
      (
        next,
        save-IsStored sim w next s.id (activated-id (now_text w) s) m,
        pushes_none sim next (owes-activated (now_text w) s),
      )
  make_move-IsSettled s m complete h =
      let c = costs w.numbers w.now (or_else (w.clock.parse s.start_date_time) 0) draws in
      let next = completed w c s in
      (
        next,
        save-IsStored sim w next s.id (completed-id w c s) m,
        pushes_none sim next (owes-completed w c s),
      )

  -- A round over a session that sends anything at all leaves under its id a record for which no
  -- command callback is sent any more.
  pub process_session-callback_once :
      (s : SessionRecord) (m : MemoryStore)
      → (process_session memory_store w format_kwh sim base draws (some s) m).1 ≢ []
      → (next : SessionRecord) × IsStored s.id next
          (process_session memory_store w format_kwh sim base draws (some s) m).0
        × (callback_pushes sim next ≡ [])
  unfolding process_session IsSettled
  process_session-callback_once s m h = make_move-IsSettled s m (move_of w sim s) h
