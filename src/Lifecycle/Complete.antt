-- ===== src/Lifecycle/Complete.antt =====
-- completeSession and hasOtherActiveSession (simulation/lifecycle.go).
use ocpi_mock_hub.Prelude.{
  String, Option, none, some, List, [], ◌∷◌, ◌++◌, Bool, false, ◌&&◌, ◌||◌, ◌==ₛ◌, if◌then◌else◌,
  not, or_else, any, filter, take, ◌>>=◌,
}
use Prim.Native.String.{◌++◌ as ◌++ₛ◌}
use ocpi_mock_hub.Json.{
  Json, bool, num, str, arr, obj, Items, nil, cons, Fields, end, field, doc, Float64, unmarshal,
  read_string, string_field,
}
use ocpi_mock_hub.Response.{Push}
use ocpi_mock_hub.Store.{Store}
use ocpi_mock_hub.Seed.{Seed, Tariff, tariffs_by_party}
use ocpi_mock_hub.Records.{SessionRecord, cdr_token_json}
use ocpi_mock_hub.Lifecycle.Numbers.{Draws, Costs, costs, periods, vat_json, round_to}
use ocpi_mock_hub.Lifecycle.Advance.{
  Simulator, World, now_text, push_to_emsp, callback_pushes, callback_done, session_pushes,
  evse_pushes, save,
}

-- what completeSession makes of the record
unfoldable pub completed : World → Costs → SessionRecord → SessionRecord
unfolding callback_done
completed w c s = record (callback_done s) {
  status = "COMPLETED";
  end_date_time = some (now_text w);
  last_updated = now_text w;
  kwh = c.kwh;
  total_cost = vat_json w.numbers c.total_cost;
  charging_periods = periods w.numbers s.start_date_time c.kwh c.duration_hours;
}

tariff_items : List Tariff → Items
tariff_items [] = nil
tariff_items (t ∷ ts) =
    cons
      (obj (
        field "country_code" (str t.country_code) (
          field "party_id" (str t.party_id) (
            field "id" (str t.id) (
              field "currency" (str t.currency)
                (field "last_updated" (str t.last_updated) t.details))))))
      (tariff_items ts)

-- up to two of the party's tariffs in the session's currency
unfoldable pub chosen_tariffs : Option Seed → SessionRecord → List Tariff
chosen_tariffs none s = []
chosen_tariffs (some seed) s =
    take 2
      (filter (λ t. t.currency ==ₛ s.currency) (tariffs_by_party seed s.country_code s.party_id))

tariffs_field : List Tariff → Fields → Fields
unfolding tariff_items
tariffs_field [] fs = fs
tariffs_field (t ∷ ts) fs = field "tariffs" (arr (tariff_items (t ∷ ts))) fs

signed_value : String → String → String → Json
signed_value nature plain signed = obj (
    field "nature" (str nature)
      (field "plain_data" (str plain) (field "signed_data" (str signed) end)))

module _ (w : World) (c : Costs) (format_kwh : Float64 → String) where
  -- `format_kwh` is fmt's %.2f
  signed_data : SessionRecord → Json
  unfolding signed_value
  signed_data s = obj (
      field "encoding_method" (str "OCMF") (
        field "signed_values"
          (arr (
            cons (signed_value "START" ("START|" ++ₛ s.start_date_time) "mock-signature-start") (
              cons
                (signed_value "END" ("END|" ++ₛ now_text w ++ₛ "|" ++ₛ format_kwh s.kwh ++ₛ "kWh")
                  "mock-signature-end")
                nil)))
          end))

  -- the members of the CDR that are set after the literal
  cdr_extras : Option Seed → String → SessionRecord → Fields
  unfolding signed_data tariffs_field
  cdr_extras seed cdr_id s = string_field "meter_id" s.meter_id (
      string_field "authorization_reference" s.authorization_reference (
        field "total_reservation_cost"
          (obj (field "excl_vat" (num 0) (field "incl_vat" (num 0) end)))
          (field "invoice_reference_id" (str ("INV-" ++ₛ cdr_id)) (
            field "home_charging_compensation" (bool false) (
              field "credit" (bool false) (
                tariffs_field (chosen_tariffs seed s)
                  (field "signed_data" (signed_data s) end)))))))

  cdr_location : SessionRecord → Json
  cdr_location s = obj (
      field "id" (str s.location_id) (
        field "evse_uid" (str s.evse_uid) (
          field "evse_id" (str s.evse_uid) (
            field "connector_id" (str s.connector_id) (
              field "connector_standard" (str "IEC_62196_T2") (
                field "connector_format" (str "SOCKET")
                  (field "connector_power_type" (str "AC_3_PHASE") end)))))))

  -- the CDR of a session that `completed` has updated
  unfoldable pub cdr_fields : Option Seed → String → SessionRecord → Fields
  unfolding cdr_extras cdr_location
  cdr_fields seed cdr_id s = field "country_code" (str s.country_code) (
      field "party_id" (str s.party_id) (
        field "id" (str cdr_id) (
          field "start_date_time" (str s.start_date_time) (
            field "end_date_time" (str (now_text w)) (
              field "session_id" (str s.id) (
                field "cdr_token" (cdr_token_json s.cdr_token) (
                  field "auth_method" (str s.auth_method) (
                    field "cdr_location" (cdr_location s) (
                      field "currency" (str s.currency) (
                        field "total_cost" s.total_cost (
                          field "total_energy" (num s.kwh) (
                            field "total_time" (num (round_to w.numbers c.duration_hours 2)) (
                              field "total_fixed_cost" (vat_json w.numbers 0x3fe0000000000000) (
                                field "total_energy_cost" (vat_json w.numbers c.energy_cost) (
                                  field "total_time_cost" (vat_json w.numbers c.time_cost) (
                                    field "total_parking_cost"
                                      (obj
                                        (field "excl_vat" (num 0) (field "incl_vat" (num 0) end)))
                                      (field "total_parking_time" (num 0) (
                                        field "remark" (str "Mock-generated CDR") (
                                          field "charging_periods" (arr s.charging_periods) (
                                            field "last_updated" (str (now_text w))
                                              (cdr_extras seed cdr_id s)))))))))))))))))))))

-- the fields that hasOtherActiveSession reads: id, evse_uid, status
pub record SessionView : Type 0 where
  pub id : String
  pub evse_uid : String
  pub status : String

abbrev read_view : Fields → Option SessionView
read_view fs = do
  id ← read_string "id" fs
  evse_uid ← read_string "evse_uid" fs
  status ← read_string "status" fs
  some (record { id = id; evse_uid = evse_uid; status = status })

abbrev pub is_occupying : String → String → Option SessionView → Bool
is_occupying evse_uid exclude none = false
is_occupying evse_uid exclude (some v) =
    not (v.id ==ₛ exclude)
    && (v.evse_uid ==ₛ evse_uid)
    && ((v.status ==ₛ "ACTIVE") || (v.status ==ₛ "PENDING"))

module _ (store : Store) (sim : Simulator) (w : World) (format_kwh : Float64 → String) where
  unfoldable pub has_other_active_session : String → String → store.State → Bool
  has_other_active_session evse_uid exclude st = elim (store.list_sessions st) [
    | none ↦ false
    | some raw ↦ any (λ b. is_occupying evse_uid exclude (unmarshal read_view b)) raw
  ]

  -- PutCDR, whose error is dropped
  unfoldable pub save_cdr : String → Json → store.State → store.State
  save_cdr id cdr st = or_else (store.put_cdr id (doc cdr) st) st

  cdr_pushes : String → String → Json → List Push
  cdr_pushes base cdr_id cdr =
      if base ==ₛ ""
      then []
      else push_to_emsp sim "POST" (base ++ₛ "/receiver/cdrs/" ++ₛ cdr_id) cdr ∷ []

  unfoldable pub complete_session :
      String → Draws → SessionRecord → store.State → store.State × List Push
  unfolding cdr_pushes save save_cdr
  complete_session base draws s st =
      let start = or_else (w.clock.parse s.start_date_time) 0 in
      let c = costs w.numbers w.now start draws in
      let next = completed w c s in
      let cdr_id = "CDR-" ++ₛ draws.uuid in
      let cdr = obj (cdr_fields w c format_kwh sim.seed cdr_id next) in
      let st' = save_cdr cdr_id cdr (save store sim w next st) in
      (
        st',
        callback_pushes sim s
            ++ session_pushes sim base next
            ++ cdr_pushes base cdr_id cdr
            ++ (if has_other_active_session next.evse_uid next.id st'
                then []
                else evse_pushes sim base "AVAILABLE" (now_text w) next),
      )
