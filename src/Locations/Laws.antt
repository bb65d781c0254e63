-- ===== src/Locations/Laws.antt =====
-- The status of an EVSE, as the location handlers answer it.
use ocpi_mock_hub.Prelude.{
  String, ◌≡◌, refl, ap, Option, none, some, List, [], ◌∷◌, map, true, false, ◌||◌, ◌∙◌, sym, arith,
  Dict, lookup, lookup-put, eq_iff, Bool-cases, inl, inr, ◌==ₛ◌, has, values, eq_refl,
}
use ocpi_mock_hub.Json.{Bytes, get, unmarshal}
use ocpi_mock_hub.Store.{Store}
use ocpi_mock_hub.MemoryStore.{MemoryStore, put_session, list_sessions, get_session}
use ocpi_mock_hub.MemoryStore.Instance.{memory_store}
use ocpi_mock_hub.Seed.{
  Seed, Location, Evse, EvseLookup, no_location, no_evse, found_evse, location_by_id, evse_by_uid,
  evse_in, find_evse,
}
use ocpi_mock_hub.Records.{
  SessionRecord, marshal_session, unmarshal_session, session_fields, session_tail,
}
use ocpi_mock_hub.Records.RoundTrip.{members, unmarshal-marshal_session}
use ocpi_mock_hub.Commands.{StartSession, read_start_session, new_session}
use ocpi_mock_hub.Commands.Handlers.{handle_start_session, start_at}
use ocpi_mock_hub.Commands.Laws.{started}
use ocpi_mock_hub.Locations.{
  read_occupied, add_occupied, occupied, active_evse_set, overlay_evse, apply_evse_overlay, Lookup,
  found, missing, get_location, get_evse,
}

-- the answer for an EVSE of a location's list
abbrev pub in_list : Option Evse → Lookup Evse
in_list none = missing "EVSE not found"
in_list (some e) = found e

overlay-uid : (active : List String) (e : Evse) → (overlay_evse active e).uid ≡ e.uid
unfolding overlay_evse
overlay-uid active e = elim (Bool-cases (has e.uid active)) [
  | inl h ↦ rw h refl
  | inr h ↦ rw h refl
]

overlay_lookup : List String → Option Evse → Lookup Evse
unfolding overlay_evse
overlay_lookup active none = missing "EVSE not found"
overlay_lookup active (some e) = found (overlay_evse active e)

in_list-overlay :
    (active : List String) (uid : String) (evses : List Evse)
    → in_list (find_evse uid (map (overlay_evse active) evses))
      ≡ overlay_lookup active (find_evse uid evses)
unfolding find_evse overlay_lookup
in_list-overlay active uid [] = refl
in_list-overlay active uid (e ∷ es) = rw (overlay-uid active e) (elim (Bool-cases (e.uid ==ₛ uid)) [
  | inl h ↦ rw h refl
  | inr h ↦ rw h (in_list-overlay active uid es)
])

by_evse :
    (active : List String) (l : Location) (o : Option Evse)
    → (elim (elim o as (λ x. EvseLookup) [ none ↦ no_evse l | some e ↦ found_evse l e ])
        as (λ x. Lookup Evse) [
          | no_location ↦ missing "Location not found"
          | no_evse l' ↦ missing "EVSE not found"
          | found_evse l' e ↦ found (overlay_evse active e)
        ])
      ≡ overlay_lookup active o
unfolding overlay_lookup
by_evse active l none = refl
by_evse active l (some e) = refl

module _ (store : Store) (seed : Seed) (location_id : String) (l : Location) where
  -- GetEVSE and GetLocation agree on a known location: what the one answers for an EVSE is what the
  -- other's location lists under its uid, the overlaid status included.
  pub get_evse-get_location :
      (uid : String) (s : store.State)
      → location_by_id seed location_id ≡ some l
      → (shown : Location) × (get_location store seed location_id s ≡ found shown)
        × (get_evse store seed location_id uid s ≡ in_list (find_evse uid shown.evses))
  unfolding get_location get_evse evse_by_uid evse_in apply_evse_overlay
  get_evse-get_location uid s e =
      let active = active_evse_set store s in
      (
        apply_evse_overlay active l,
        rw (get_location, e) refl,
        rw (get_evse, e, in_list-overlay active uid l.evses)
            (by_evse active l (find_evse uid l.evses)),
      )

read-occupied :
    (s : SessionRecord) → unmarshal read_occupied (marshal_session s) ≡ some (s.evse_uid, s.status)
unfolding marshal_session session_fields session_tail get
read-occupied s = simp members

occupied-cons :
    (s : SessionRecord) (bs : List Bytes)
    → occupied (marshal_session s ∷ bs) ≡ add_occupied (some (s.evse_uid, s.status)) (occupied bs)
unfolding occupied
occupied-cons s bs = ap (λ o. add_occupied o (occupied bs)) (read-occupied s)

found_uid :
    (uid : String) (e : Evse) (evses : List Evse) → find_evse uid evses ≡ some e → e.uid ≡ uid
unfolding find_evse
found_uid uid e [] h = absurd (ground (arith, h))
found_uid uid e (d ∷ ds) h = elim (Bool-cases (d.uid ==ₛ uid)) [
  | inl same ↦
      let first : d ≡ e = ground (arith, same, h) in
      ap (λ x. x.uid) (sym first) ∙ (eq_iff d.uid uid).0 same
  | inr other ↦ found_uid uid e ds (ground (arith, other, h))
]

overlay-charging :
    (e : Evse) (active : List String)
    → has e.uid active ≡ true
    → overlay_evse active e ≡ record e { status = "CHARGING" }
unfolding overlay_evse
overlay-charging e active h = rw h refl

has-add_occupied :
    (uid : String) (o : Option (String × String)) (active : List String)
    → has uid active ≡ true
    → has uid (add_occupied o active) ≡ true
unfolding has
has-add_occupied uid none active h = h
has-add_occupied uid (some (u, status)) active h = ground (arith, h)

-- A stored session that is PENDING or ACTIVE occupies its EVSE, wherever it is in the table.
occupied-stored :
    (s : SessionRecord) (id : String) (sessions : Dict Bytes)
    → (s.status ==ₛ "ACTIVE") || (s.status ==ₛ "PENDING") ≡ true
    → lookup id sessions ≡ some (marshal_session s)
    → has s.evse_uid (occupied (values sessions)) ≡ true
unfolding lookup values occupied has
occupied-stored s id [] busy h = absurd (ground (arith, h))
occupied-stored s id ((k, b) ∷ sessions) busy h = elim (Bool-cases (k ==ₛ id)) [
  | inl here ↦
      let same : b ≡ marshal_session s = ground (arith, here, h) in
      rw (same, read-occupied s, busy, eq_refl s.evse_uid) refl
  | inr there ↦
      has-add_occupied s.evse_uid (unmarshal read_occupied b) (occupied (values sessions))
        (occupied-stored s id sessions busy (ground (arith, there, h)))
]

-- While a PENDING or ACTIVE session is stored, GetEVSE answers its EVSE as CHARGING.
get_evse-occupied :
    (seed : Seed) (location_id : String) (l : Location) (e : Evse) (s : SessionRecord)
    (m : MemoryStore)
    → location_by_id seed location_id ≡ some l
    → find_evse s.evse_uid l.evses ≡ some e
    → (s.status ==ₛ "ACTIVE") || (s.status ==ₛ "PENDING") ≡ true
    → lookup s.id m.sessions ≡ some (marshal_session s)
    → get_evse memory_store seed location_id s.evse_uid m ≡ found (record e { status = "CHARGING" })
unfolding get_evse evse_by_uid evse_in active_evse_set list_sessions
get_evse-occupied seed location_id l e s m known there busy held =
    let uid_held = occupied-stored s s.id m.sessions busy held in
    let own = found_uid s.evse_uid e l.evses there in
    let place : evse_by_uid seed location_id s.evse_uid ≡ found_evse l e =
      ap (evse_in s.evse_uid) known ∙ rw (evse_in, there) refl in
    rw (get_evse, place)
      (ap found (overlay-charging e (occupied (values m.sessions)) (rw own uid_held)))

module _ (seed : Seed) (now uuid mode : String) (body : Bytes) (m : MemoryStore) (p : StartSession)
    (l : Location) where
  abbrev start_state : MemoryStore
  start_state = (handle_start_session memory_store seed now uuid mode (some body) m).state

  start-stores :
      unmarshal read_start_session body ≡ some p
      → (mode ==ₛ "reject") ≡ false
      → location_by_id seed p.location_id ≡ some l
      → let s = new_session p l now uuid in
        lookup s.id start_state.sessions ≡ some (marshal_session s)
  unfolding start_at put_session
  start-stores decoded allowed known =
      let s = new_session p l now uuid in
      ap (λ o. lookup s.id o.state.sessions)
        (started seed now uuid mode body m p l decoded allowed known)
      ∙ lookup-put s.id s.id (marshal_session s) m.sessions
      ∙ rw (eq_refl s.id) refl

  -- After an accepted START_SESSION of a known location whose EVSE is found, in every store that
  -- still has under the session's id what the command stored, the session is read back as PENDING
  -- and GetEVSE answers its EVSE with the status CHARGING and its other members as in the seed.
  pub handle_start_session-occupies :
      (e : Evse) (m' : MemoryStore)
      → unmarshal read_start_session body ≡ some p
      → (mode ==ₛ "reject") ≡ false
      → location_by_id seed p.location_id ≡ some l
      → let s = new_session p l now uuid in
        find_evse s.evse_uid l.evses ≡ some e
        → lookup s.id m'.sessions ≡ lookup s.id start_state.sessions
        → (unmarshal_session (get_session s.id m') ≡ some s)
          × (s.status ≡ "PENDING")
          × (get_evse memory_store seed p.location_id s.evse_uid m'
              ≡ found (record e { status = "CHARGING" }))
  unfolding new_session get_session
  handle_start_session-occupies e m' decoded allowed known there kept =
      let s = new_session p l now uuid in
      let held = kept ∙ start-stores decoded allowed known in
      (
        rw held (unmarshal-marshal_session s),
        refl,
        get_evse-occupied seed p.location_id l e s m' known there (ground arith) held,
      )
