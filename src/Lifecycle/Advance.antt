-- ===== src/Lifecycle/Advance.antt =====
-- advancePendingToActive and updateActiveSession (simulation/lifecycle.go), the URLs that the simulator
-- pushes to, and the objects that it pushes. A push is an attempt: its outcome is never read.
use ocpi_mock_hub.Prelude.{
  ℕ, String, Option, none, some, List, [], ◌∷◌, ◌++◌, Bool, true, ◌&&◌, ◌||◌, ◌==ₛ◌, if◌then◌else◌,
  not, or_else, trim_slashes, trim_suffix,
}
use Prim.Native.String.{◌++◌ as ◌++ₛ◌}
use ocpi_mock_hub.Json.{Json, str, arr, obj, Items, nil, cons, end, field, Bytes, Float64}
use ocpi_mock_hub.Paging.{Clock}
use ocpi_mock_hub.Response.{Push}
use ocpi_mock_hub.Store.{Store, bytes_or_nil}
use ocpi_mock_hub.Seed.{
  Seed, Location, Evse, Connector, EvseLookup, no_location, no_evse, found_evse, evse_by_uid,
}
use ocpi_mock_hub.Records.{SessionRecord, session_fields, marshal_session}
use ocpi_mock_hub.Lifecycle.Numbers.{Numbers, active_kwh, periods}

-- The Simulator, without its store; `seed` may be nil.
pub record Simulator : Type 0 where
  pub seed : Option Seed
  pub emsp_callback_url : String
  pub command_delay_ms : ℕ
  pub session_duration_s : ℕ
  pub auth_token : String

-- The world of one tick: the packages time and the float64 arithmetic, and time.Now().
pub record World : Type 0 where
  pub clock : Clock
  pub numbers : Numbers
  pub now : ℕ

abbrev pub now_text : World → String
now_text w = w.clock.format w.now

-- stripVersionsSuffix
unfoldable pub strip_versions_suffix : String → String
strip_versions_suffix u = trim_suffix "/versions" (trim_slashes u)

capability_items : List String → Items
capability_items [] = nil
capability_items (c ∷ cs) = cons (str c) (capability_items cs)

connector_items : List Connector → Items
connector_items [] = nil
connector_items (c ∷ cs) = cons (obj (field "id" (str c.id) c.details)) (connector_items cs)

unfoldable pub evse_json : Evse → Json
unfolding capability_items connector_items
evse_json e = obj (
    field "uid" (str e.uid) (
      field "status" (str e.status) (
        field "capabilities" (arr (capability_items e.capabilities)) (
          field "connectors" (arr (connector_items e.connectors))
            (field "last_updated" (str e.last_updated) e.details)))))

-- pushToEMSP
unfoldable pub push_to_emsp : Simulator → String → String → Json → Push
push_to_emsp sim method url payload = record {
  method = method;
  url = url;
  token = sim.auth_token;
  body = payload;
}

unfoldable pub session_url : String → SessionRecord → String
session_url base s =
    base ++ₛ "/receiver/sessions/" ++ₛ s.country_code ++ₛ "/" ++ₛ s.party_id ++ₛ "/" ++ₛ s.id

unfoldable pub evse_url : String → Location → Evse → String
evse_url base l e =
    base ++ₛ "/receiver/locations/" ++ₛ l.country_code ++ₛ "/" ++ₛ l.party_id ++ₛ "/" ++ₛ l.id
    ++ₛ "/" ++ₛ e.uid

-- The command callback: sent if there is an address and it was not sent yet.
abbrev pub owes_callback : SessionRecord → Bool
owes_callback s = not (s.response_url ==ₛ "") && not s.callback_sent

unfoldable pub callback_pushes : Simulator → SessionRecord → List Push
unfolding push_to_emsp
callback_pushes sim s =
    if owes_callback s
    then push_to_emsp sim "POST" s.response_url
        (obj (field "result" (str "ACCEPTED") (field "session_id" (str s.id) end)))
      ∷ []
    else []

unfoldable pub callback_done : SessionRecord → SessionRecord
callback_done s = if owes_callback s then record s { callback_sent = true } else s

-- the PUT of a session to the eMSP's receiver
unfoldable pub session_pushes : Simulator → String → SessionRecord → List Push
unfolding push_to_emsp session_url
session_pushes sim base s =
    if base ==ₛ ""
    then []
    else push_to_emsp sim "PUT" (session_url base s) (obj (session_fields s)) ∷ []

evse_push : Simulator → String → String → String → EvseLookup → List Push
unfolding push_to_emsp evse_url evse_json
evse_push sim base status stamp no_location = []
evse_push sim base status stamp (no_evse l) = []
evse_push sim base status stamp (found_evse l e) =
    push_to_emsp sim "PUT" (evse_url base l e)
      (evse_json (record e { status = status; last_updated = stamp }))
    ∷ []

-- the PUT of the session's EVSE with a new status, where the seed knows it
unfoldable pub evse_pushes : Simulator → String → String → String → SessionRecord → List Push
unfolding evse_push
evse_pushes sim base status stamp s = elim sim.seed [
  | none ↦ []
  | some seed ↦
      if (base ==ₛ "") || (s.location_id ==ₛ "") || (s.evse_uid ==ₛ "")
      then []
      else evse_push sim base status stamp (evse_by_uid seed s.location_id s.evse_uid)
]

-- what advancePendingToActive makes of the record
unfoldable pub activated : String → SessionRecord → SessionRecord
unfolding callback_done
activated stamp s = record (callback_done s) {
  status = "ACTIVE";
  kwh = 0x3fe0000000000000;
  activated_at = stamp;
  last_updated = stamp;
}

-- what updateActiveSession makes of the record
unfoldable pub metered : World → ℕ → ℕ → Float64 → Bytes → SessionRecord → SessionRecord
metered w duration_s since draw profile s =
    let kwh = active_kwh w.numbers duration_s w.now since draw profile in
    record s {
      kwh = kwh;
      last_updated = now_text w;
      charging_periods = periods w.numbers s.start_date_time kwh (w.numbers.hours w.now since);
    }

module _ (store : Store) (sim : Simulator) (w : World) where
  -- PutSession, whose error is dropped
  unfoldable pub save : SessionRecord → store.State → store.State
  save s st = or_else (store.put_session s.id (marshal_session s) st) st

  unfoldable pub advance_pending_to_active :
      String → SessionRecord → store.State → store.State × List Push
  unfolding callback_pushes session_pushes evse_pushes save
  advance_pending_to_active base s st =
      let next = activated (now_text w) s in
      (
        save next st,
        callback_pushes sim s
            ++ session_pushes sim base next
            ++ evse_pushes sim base "CHARGING" (now_text w) next,
      )

  unfoldable pub update_active_session : ℕ → Float64 → SessionRecord → store.State → store.State
  unfolding save
  update_active_session since draw s st =
      save
        (metered w sim.session_duration_s since draw
          (bytes_or_nil (store.get_charging_profile s.id st)) s)
        st
