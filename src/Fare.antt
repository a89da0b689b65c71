-- ===== src/Fare.antt =====
-- service/dispatch/fare.ts: tow fares. Distances are metres, the billed distance is hundredths of a
-- kilometre, multipliers are thousandths, and a night window is minutes of the day.
pub mod Laws
use roadassistapp_be.Base.{
  ℕ, ◌+◌, ◌-◌, ◌*◌, max, min, Bool, true, false, ◌||◌, Option, none, some, List, if◌then◌else◌,
  or_else, leb, ltb,
}
use roadassistapp_be.Base.Int.{round_div}
use roadassistapp_be.Ticket.{VehicleClass, solo_bike, car}
use roadassistapp_be.Bill.Amount.{tow_history_amount}

pub record TowRateTable : Type 0 where
  pub base_fee : ℕ
  pub per_km : ℕ
  pub included_m : ℕ

pub record TowRates : Type 0 where
  pub solo_bike_table : TowRateTable
  pub car_table : TowRateTable
  pub night_multiplier : ℕ
  pub night_start : ℕ
  pub night_end : ℕ
  pub ceiling_multiplier : ℕ
  pub minimum_fee : ℕ
  pub deadhead_payable : Bool

-- `isNightFare`, at a minute of the day in Vietnam.
unfoldable pub is_night_fare : TowRates → ℕ → Bool
is_night_fare rates minutes = leb rates.night_start minutes || ltb minutes rates.night_end

-- `roundFare` of an amount in parts of a dong, so many for each.
abbrev pub round_fare : ℕ → ℕ → ℕ
round_fare amount parts = round_div amount (1000 * parts) * 1000

-- `nightMult`
abbrev pub night_mult : Bool → ℕ → ℕ
night_mult true multiplier = multiplier
night_mult false multiplier = 1000

pub record TowFareQuote : Type 0 where
  pub estimate : ℕ
  pub ceiling : ℕ
  pub deadhead_m : ℕ
  pub loaded_m : ℕ
  pub night : Bool
  pub night_multiplier : ℕ
  pub vehicle_class : VehicleClass
  pub base_fee : ℕ
  pub per_km_fee : ℕ
  pub included_m : ℕ
  pub billable_hkm : ℕ

abbrev pub table_for : Option VehicleClass → TowRates → TowRateTable
table_for (some car) rates = rates.car_table
table_for (some solo_bike) rates = rates.solo_bike_table
table_for none rates = rates.solo_bike_table

-- `billable` of `quoteTowFare`.
unfoldable pub billable_hkm_for : TowRateTable → ℕ → ℕ
billable_hkm_for table loaded = round_div (loaded - table.included_m) 10

-- `estimate` of `quoteTowFare`, for a distance in hundredths of a kilometre.
unfoldable pub estimate_for : TowRates → TowRateTable → Bool → ℕ → ℕ
estimate_for rates table night billable =
    round_fare
      (max (rates.minimum_fee * 100000) (
        night_mult night rates.night_multiplier * (table.base_fee * 100 + table.per_km * billable)))
      100000

-- `quoteTowFare`
unfoldable pub quote_tow_fare : Option VehicleClass → Bool → ℕ → ℕ → TowRates → TowFareQuote
unfolding billable_hkm_for estimate_for
quote_tow_fare cls night deadhead loaded rates =
    let table = table_for cls rates in
    let billable = billable_hkm_for table loaded in
    let estimate = estimate_for rates table night billable in
    record {
      estimate = estimate;
      ceiling = round_fare (estimate * rates.ceiling_multiplier) 1000;
      deadhead_m = deadhead;
      loaded_m = loaded;
      night = night;
      night_multiplier = rates.night_multiplier;
      vehicle_class = or_else cls solo_bike;
      base_fee = table.base_fee;
      per_km_fee = table.per_km;
      included_m = table.included_m;
      billable_hkm = billable;
    }

-- `settleTowFare`
abbrev pub settle_tow_fare : TowFareQuote → ℕ
settle_tow_fare quote = min quote.estimate quote.ceiling

-- `partialTowFare`
unfoldable pub partial_tow_fare : Option VehicleClass → Bool → ℕ → Option ℕ → TowRates → ℕ
partial_tow_fare cls night deadhead per_km_fee rates =
    if rates.deadhead_payable
    then round_fare
        (night_mult night rates.night_multiplier
          * (or_else per_km_fee (table_for cls rates).per_km * deadhead))
        1000000
    else 0

-- `towRatesForProvider`
abbrev pub tow_rates_for_provider : TowRates → Option ℕ → Option ℕ → TowRates
tow_rates_for_provider rates base_fee per_km = record rates {
  car_table = record (rates.car_table) {
    base_fee = or_else base_fee rates.car_table.base_fee;
    per_km = or_else per_km rates.car_table.per_km;
  };
}

-- `cap` of `stampTowFare`: `towFeeCap` less what earlier towers have earned, or the ceiling on file.
unfoldable pub fare_cap : Option ℕ → List (Option ℕ) → Option ℕ → Option ℕ
unfolding tow_history_amount
fare_cap (some cap) history on_file = some (cap - tow_history_amount history)
fare_cap none history on_file = on_file

-- The estimate and the ceiling that `stampTowFare` writes.
unfoldable pub stamped_fare : TowFareQuote → Option ℕ → ℕ × ℕ
stamped_fare quote none = (quote.estimate, quote.ceiling)
stamped_fare quote (some cap) = (min quote.estimate cap, cap)
