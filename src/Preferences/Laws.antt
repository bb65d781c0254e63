-- ===== src/Preferences/Laws.antt =====
-- What the simulator makes of the preferences that PutChargingPreferences stores.
use ocpi_mock_hub.Prelude.{
  String, ◌≡◌, refl, ◌∙◌, ap, Option, none, some, Bool, true, false, ◌==ₛ◌, if◌then◌else◌, or_else,
  lookup-put, eq_refl,
}
use ocpi_mock_hub.Json.{put, Json, str, obj, Fields, Bytes, doc, get, Float64, unmarshal}
use ocpi_mock_hub.Json.Members.{get-put}
use ocpi_mock_hub.Response.{respond, ok}
use ocpi_mock_hub.Store.{bytes_or_nil}
use ocpi_mock_hub.MemoryStore.{MemoryStore, put_session, get_session, put_cdr, or_nil}
use ocpi_mock_hub.MemoryStore.Instance.{memory_store}
use ocpi_mock_hub.Seed.{Seed}
use ocpi_mock_hub.Sessions.Laws.{HasFields}
use ocpi_mock_hub.Records.{
  read_session, SessionRecord, session_fields, session_tail, marshal_session, unmarshal_session,
}
use ocpi_mock_hub.Records.RoundTrip.{members}
use ocpi_mock_hub.Lifecycle.Numbers.{Draws, costs}
use ocpi_mock_hub.Lifecycle.Advance.{Simulator, World, metered, save, update_active_session}
use ocpi_mock_hub.Lifecycle.Complete.{completed, save_cdr, complete_session}
use ocpi_mock_hub.Lifecycle.Tick.{
  meter, complete, move_of, make_move, process_session, active_since,
}
use ocpi_mock_hub.Lifecycle.Machine.{completed-id}
use ocpi_mock_hub.Preferences.{
  ChargingPreferences, read_preferences, preferences_json, profile_of, with_preferences,
  put_charging_preferences,
}
use ocpi_mock_hub.Preferences.Accepted.{said, answer, put_charging_preferences-IsStoring}

read_session-put_preferences :
    (v : Json) (fs : Fields) → read_session (put "charging_preferences" v fs) ≡ read_session fs
unfolding read_session
read_session-put_preferences v fs = simp (get-put)

no_preferences : (s : SessionRecord) → get "charging_preferences" (session_fields s) ≡ none
unfolding session_fields session_tail get
no_preferences s = simp members

module _ (w : World) (format_kwh : Float64 → String) (sim : Simulator) (base : String)
    (draws : Draws) where
  -- the stored object after a move, without preferences
  IsForgotten : String → MemoryStore → Type 0
  IsForgotten id m = (fs : Fields) × HasFields id fs m × (get "charging_preferences" fs ≡ none)

  save-IsForgotten :
      (s : SessionRecord) (id : String)
      → s.id ≡ id
      → (m : MemoryStore) → IsForgotten id (save memory_store sim w s m)
  unfolding IsForgotten save put_session get_session marshal_session
  save-IsForgotten s id e m = rw⁻¹ e (
    session_fields s,
    ap or_nil (lookup-put s.id s.id (marshal_session s) m.sessions) ∙ rw (eq_refl s.id) refl,
    no_preferences s,
  )

  make_move-IsForgotten :
      (s : SessionRecord) (m : MemoryStore) (late : Bool)
      → IsForgotten s.id
          (make_move memory_store w format_kwh sim base draws s
            (if late then complete else meter)
            m).0
  unfolding IsForgotten make_move update_active_session complete_session save_cdr put_cdr metered
      get_session
  make_move-IsForgotten s m true =
      let c = costs w.numbers w.now (or_else (w.clock.parse s.start_date_time) 0) draws in
      save-IsForgotten (completed w c s) s.id (completed-id w c s) m
  make_move-IsForgotten s m false =
      let profile = bytes_or_nil (memory_store.get_charging_profile s.id m) in
      save-IsForgotten (metered w sim.session_duration_s (active_since w s) draws.first profile s)
        s.id refl m

  round-IsForgotten :
      (s : SessionRecord) (m : MemoryStore) (before : Fields)
      → HasFields s.id before m
      → unmarshal_session (doc (obj before)) ≡ some s
      → s.status ≡ "ACTIVE"
      → let read = unmarshal_session (get_session s.id m) in
        IsForgotten s.id (process_session memory_store w format_kwh sim base draws read m).0
  unfolding process_session move_of IsForgotten
  round-IsForgotten s m before there decoded active =
      let other : (s.status ==ₛ "PENDING") ≡ false = rw active refl in
      let same : (s.status ==ₛ "ACTIVE") ≡ true = rw active refl in
      rw (there, decoded, other, same) (make_move-IsForgotten s m _)

  -- Where PutChargingPreferences answers ACCEPTED for a session that is stored under its id as
  -- ACTIVE, it stores the preferences, with the profile type in the enum's spelling, as the
  -- charging_preferences of the session's object, and the next round of the simulator over the
  -- session leaves under its id an object without them.
  pub process_session-forgets_preferences :
      (seed : Option Seed) (p : ChargingPreferences) (body : Bytes) (session : Fields)
      (s : SessionRecord) (m : MemoryStore)
      → unmarshal read_preferences body ≡ some p
      → HasFields s.id session m
      → unmarshal_session (doc (obj session)) ≡ some s
      → s.status ≡ "ACTIVE"
      → let o = put_charging_preferences memory_store seed s.id (some body) m in
        o.reply ≡ respond (ok (str "ACCEPTED"))
        → let read = unmarshal_session (get_session s.id o.state) in
          let m' = (process_session memory_store w format_kwh sim base draws read o.state).0 in
          (before after : Fields) × HasFields s.id before o.state
          × (get "charging_preferences" before
              ≡ some (preferences_json (record p { profile_type = profile_of p })))
          × HasFields s.id after m'
          × (get "charging_preferences" after ≡ none)
  unfolding with_preferences put_session get_session unmarshal_session IsForgotten said answer
  process_session-forgets_preferences seed p body session s m sent there decoded active accepted =
      let o = put_charging_preferences memory_store seed s.id (some body) m in
      let before = with_preferences p session in
      let stored : o.state ≡ put_session s.id (doc (obj before)) m =
        put_charging_preferences-IsStoring seed s.id p session m body sent there
          (ap said accepted) in
      let held : HasFields s.id before o.state =
        rw stored (
          ap or_nil (lookup-put s.id s.id (doc (obj before)) m.sessions)
          ∙ rw (eq_refl s.id) refl) in
      let same : unmarshal_session (doc (obj before)) ≡ some s =
        read_session-put_preferences _ session ∙ decoded in
      let (after, kept, forgotten) = round-IsForgotten s o.state before held same active in
      (
        before,
        after,
        held,
        get-put "charging_preferences" "charging_preferences" _ session,
        kept,
        forgotten,
      )
