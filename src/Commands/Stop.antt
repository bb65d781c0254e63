-- ===== src/Commands/Stop.antt =====
-- STOP_SESSION (handlers/commands.go) followed by the round of the simulator that acts on it.
use ocpi_mock_hub.Prelude.{
  String, ◌≡◌, refl, ◌∙◌, ap, some, false, Bool-cases, inl, inr, ◌==ₛ◌, lookup-put, eq_refl, arith,
}
use ocpi_mock_hub.Json.{Float64, Bytes, no_bytes, text, doc, is_nil, unmarshal}
use ocpi_mock_hub.MemoryStore.{MemoryStore, get_session, put_session, or_nil}
use ocpi_mock_hub.MemoryStore.Instance.{memory_store}
use ocpi_mock_hub.Records.{SessionRecord, marshal_session, unmarshal_session}
use ocpi_mock_hub.Records.RoundTrip.{unmarshal-marshal_session}
use ocpi_mock_hub.Lifecycle.Numbers.{Draws}
use ocpi_mock_hub.Lifecycle.Advance.{Simulator, World}
use ocpi_mock_hub.Lifecycle.Tick.{complete, move_of}
use ocpi_mock_hub.Lifecycle.Machine.{IsStored}
use ocpi_mock_hub.Lifecycle.Billing.{HasBill, complete-HasBill}
use ocpi_mock_hub.Lifecycle.Progress.{round, round-move}
use ocpi_mock_hub.Commands.{StopSession, read_stop_session, stopped}
use ocpi_mock_hub.Commands.Handlers.{stop_decoded, stop_with, handle_stop_session}
use ocpi_mock_hub.Commands.Laws.{with_payload-runs}

not_nil : (b : Bytes) (s : SessionRecord) → unmarshal_session b ≡ some s → is_nil b ≡ false
unfolding unmarshal_session
not_nil no_bytes s h = ground (arith, h)
not_nil (text t) s h = refl
not_nil (doc j) s h = refl

stopped-id : (url now : String) (s : SessionRecord) → (stopped url now s).id ≡ s.id
unfolding stopped
stopped-id url now s = elim (Bool-cases (url ==ₛ "")) [ inl e ↦ rw e refl | inr e ↦ rw e refl ]

stopped-status : (url now : String) (s : SessionRecord) → (stopped url now s).status ≡ "STOPPING"
unfolding stopped
stopped-status url now s = elim (Bool-cases (url ==ₛ "")) [ inl e ↦ rw e refl | inr e ↦ rw e refl ]

move_of-stopping :
    (w : World) (sim : Simulator) (s : SessionRecord)
    → s.status ≡ "STOPPING"
    → move_of w sim s ≡ complete
unfolding move_of
move_of-stopping w sim s e = rw e refl

module _ (now mode : String) (body : Bytes) (m : MemoryStore) where
  stop_with-state :
      (p : StopSession) (s : SessionRecord)
      → (p.session_id ==ₛ "") ≡ false
      → IsStored p.session_id s m
      → (stop_with memory_store now p m).state
        ≡ put_session s.id (marshal_session (stopped p.response_url now s)) m
  unfolding stop_decoded stop_with put_session
  stop_with-state p s named h =
      rw
        (
          stop_with,
          named,
          not_nil (get_session p.session_id m) s h,
          h,
          stopped-id p.response_url now s,
        )
        refl

  stopped-IsStored :
      (url : String) (s : SessionRecord) (id : String)
      → s.id ≡ id
      → IsStored id (stopped url now s) (put_session s.id (marshal_session (stopped url now s)) m)
  unfolding put_session get_session
  stopped-IsStored url s id e = rw⁻¹ e (
      ap (λ o. unmarshal_session (or_nil o))
        (lookup-put s.id s.id (marshal_session (stopped url now s)) m.sessions)
      ∙ rw (eq_refl s.id) (unmarshal-marshal_session (stopped url now s)))

  stop-state :
      (p : StopSession) (s : SessionRecord)
      → unmarshal read_stop_session body ≡ some p
      → (mode ==ₛ "reject") ≡ false
      → (p.session_id ==ₛ "") ≡ false
      → IsStored p.session_id s m
      → (handle_stop_session memory_store now mode (some body) m).state
        ≡ put_session s.id (marshal_session (stopped p.response_url now s)) m
  unfolding handle_stop_session
  stop-state p s decoded allowed named h =
      ap (λ o. o.state)
        (with_payload-runs memory_store read_stop_session mode body (stop_with memory_store now) m p
          decoded allowed)
      ∙ stop_with-state p s named h

  -- STOP_SESSION of a session that is stored under its own, non-empty id, outside the mode reject,
  -- leaves it STOPPING whatever its status was, COMPLETED included, and the simulator's next round
  -- puts a CDR for it and leaves it COMPLETED.
  pub handle_stop_session-bills :
      (w : World) (format_kwh : Float64 → String) (sim : Simulator) (base : String) (draws : Draws)
      (p : StopSession) (s : SessionRecord)
      → unmarshal read_stop_session body ≡ some p
      → (mode ==ₛ "reject") ≡ false
      → (p.session_id ==ₛ "") ≡ false
      → IsStored p.session_id s m
      → s.id ≡ p.session_id
      → let m' = (handle_stop_session memory_store now mode (some body) m).state in
        (next : SessionRecord) × IsStored p.session_id next m'
        × (next.status ≡ "STOPPING")
        × HasBill w format_kwh sim base draws next m'
            (round format_kwh sim base w draws p.session_id m')
  unfolding put_session
  handle_stop_session-bills w format_kwh sim base draws p s decoded allowed named h same =
      let next = stopped p.response_url now s in
      let m' = put_session s.id (marshal_session next) m in
      let stored = stopped-IsStored p.response_url s p.session_id same in
      rw (stop-state p s decoded allowed named h) (
        next,
        stored,
        stopped-status p.response_url now s,
        rw
            (round-move format_kwh sim base w draws next m' p.session_id complete stored
              (move_of-stopping w sim next (stopped-status p.response_url now s)))
            (complete-HasBill w format_kwh sim base draws next m'),
      )
