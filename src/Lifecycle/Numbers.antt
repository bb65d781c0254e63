-- ===== src/Lifecycle/Numbers.antt =====
-- The numbers of the simulation. A float64 is its bit pattern, and the arithmetic on it is a parameter,
-- with time.Duration's Seconds and Hours of the difference of two instants.
use ocpi_mock_hub.Prelude.{
  ℕ, zero, suc, Bool, if◌then◌else◌, String, ◌==ₛ◌, Option, none, some, ◌>>=◌,
}
use ocpi_mock_hub.Json.{
  Json, num, str, arr, obj, Items, nil, cons, Fields, end, field, Float64, Bytes, unmarshal,
  read_string, read_float,
}

pub record Numbers : Type 0 where
  pub add : Float64 → Float64 → Float64
  pub mul : Float64 → Float64 → Float64
  pub div : Float64 → Float64 → Float64
  pub lt : Float64 → Float64 → Bool
  pub of_int : ℕ → Float64
  pub truncate : Float64 → Float64  -- float64(int(x))
  pub seconds : ℕ → ℕ → Float64  -- now.Sub(then).Seconds()
  pub hours : ℕ → ℕ → Float64  -- now.Sub(then).Hours()

-- The draws of one round over a session: two of rand.Float64, and the first eight characters of a UUID.
pub record Draws : Type 0 where
  pub first : Float64
  pub second : Float64
  pub uuid : String

-- the rate of a stored profile in kW, none where it does not unmarshal or is not above 0
pub data Rate : Type 0 where
  no_rate : Rate
  rate : Float64 → Rate

-- the amounts of completeSession
pub record Costs : Type 0 where
  pub kwh : Float64
  pub duration_hours : Float64
  pub energy_cost : Float64
  pub time_cost : Float64
  pub total_cost : Float64

module _ (n : Numbers) where
  open n use {add, mul, div, lt, of_int, truncate, seconds, hours}

  -- factor *= 10, `decimals` times, from 1.0
  factor : ℕ → Float64
  factor zero = 0x3ff0000000000000
  factor (suc k) = mul (factor k) 0x4024000000000000

  unfoldable pub round_to : Float64 → ℕ → Float64
  unfolding factor
  round_to x decimals =
      div (truncate (add (mul x (factor decimals)) 0x3fe0000000000000)) (factor decimals)

  profile_rate : Option (String × Float64) → Rate
  profile_rate none = no_rate
  profile_rate (some (unit, min_rate)) =
      if lt 0 min_rate
      then rate (
          if unit ==ₛ "A"
          then div (mul min_rate 0x406cc00000000000) 0x408f400000000000
          else div min_rate 0x408f400000000000)
      else no_rate

  abbrev read_profile : Fields → Option (String × Float64)
  read_profile fs = do
    unit ← read_string "charging_rate_unit" fs
    min_rate ← read_float "min_charging_rate" fs
    some (unit, min_rate)

  cap_rate : ℕ → Float64 → Rate → Float64
  cap_rate duration_s max_kwh no_rate = max_kwh
  cap_rate duration_s max_kwh (rate kw) =
      let profile_max = mul kw (div (of_int duration_s) 0x40ac200000000000) in
      if lt profile_max max_kwh then profile_max else max_kwh

  -- the meter value of updateActiveSession; a missing profile does not unmarshal
  unfoldable pub active_kwh : ℕ → ℕ → ℕ → Float64 → Bytes → Float64
  unfolding profile_rate cap_rate round_to
  active_kwh duration_s now activated draw profile =
      let progress = div (seconds now activated) (of_int duration_s) in
      let progress' = if lt 0x3ff0000000000000 progress then 0x3ff0000000000000 else progress in
      let max_kwh = add 0x4034000000000000 (mul draw 0x4044000000000000) in
      round_to
        (mul (cap_rate duration_s max_kwh (profile_rate (unmarshal read_profile profile)))
          progress')
        2

  -- the one charging period of a session
  unfoldable pub periods : String → Float64 → Float64 → Items
  unfolding round_to
  periods start kwh duration_hours =
      cons
        (obj (
          field "start_date_time" (str start) (
            field "dimensions"
              (arr (
                cons (obj (field "type" (str "ENERGY") (field "volume" (num kwh) end))) (
                  cons
                    (obj (
                      field "type" (str "TIME")
                        (field "volume" (num (round_to duration_hours 4)) end)))
                    nil)))
              end)))
        nil

  -- {"excl_vat": roundTo(x/1.19, 2), "incl_vat": x}
  unfoldable pub vat_json : Float64 → Json
  unfolding round_to
  vat_json x = obj (
      field "excl_vat" (num (round_to (div x 0x3ff30a3d70a3d70a) 2)) (field "incl_vat" (num x) end))

  unfoldable pub costs : ℕ → ℕ → Draws → Costs
  unfolding round_to
  costs now start draws =
      let total_kwh = add 0x402e000000000000 (mul draws.first 0x4046800000000000) in
      let duration_hours = hours now start in
      let price = add 0x3fd3333333333333 (mul draws.second 0x3fc3333333333333) in
      let energy_cost = round_to (mul total_kwh price) 2 in
      let time_cost = round_to (mul duration_hours 0x3fa999999999999a) 2 in
      record {
        kwh = round_to total_kwh 2;
        duration_hours = duration_hours;
        energy_cost = energy_cost;
        time_cost = time_cost;
        total_cost = round_to (add (add energy_cost time_cost) 0x3fe0000000000000) 2;
      }
