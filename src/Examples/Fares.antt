-- ===== src/Examples/Fares.antt =====
-- Examples of the theorems on tow fares.
use roadassistapp_be.Base.{ℕ, ◌*◌, ◌≤◌, ◌<◌, ◌≡◌, ◌↔◌, true, false, some, [], ◌∷◌, arith}
use roadassistapp_be.Ticket.{car}
use roadassistapp_be.Bill.Amount.{tow_history_amount}
use roadassistapp_be.Fare.{
  TowRates, TowFareQuote, round_fare, quote_tow_fare, settle_tow_fare, is_night_fare,
}
use roadassistapp_be.Fare.Laws.{is_night_fare_iff, quote_tow_fare_monotone}

-- Night from 22:00 to 6:00 at one and a half times the fare.
abbrev rates : TowRates
rates = record {
  solo_bike_table = record { base_fee = 150000; per_km = 10000; included_m = 3000 };
  car_table = record { base_fee = 400000; per_km = 15000; included_m = 10000 };
  night_multiplier = 1500;
  night_start = 1320;
  night_end = 360;
  ceiling_multiplier = 1100;
  minimum_fee = 100000;
  deadhead_payable = true;
}

abbrev quote : TowFareQuote
quote = quote_tow_fare (some car) true 2000 14200 rates

is_night_fare_iff_example :
    ((minutes : ℕ) × (is_night_fare rates minutes ≡ false)) ↔ (rates.night_end < rates.night_start)
is_night_fare_iff_example = is_night_fare_iff rates

quote_tow_fare_monotone_example :
    (round_fare (rates.minimum_fee * 100000) 100000
      ≤ (quote_tow_fare (some car) true 2000 14200 rates).estimate)
    × ((quote_tow_fare (some car) true 2000 14200 rates).estimate
        ≤ (quote_tow_fare (some car) true 2000 20000 rates).estimate)
    × (settle_tow_fare (quote_tow_fare (some car) true 2000 14200 rates)
        ≤ settle_tow_fare (quote_tow_fare (some car) true 2000 20000 rates))
quote_tow_fare_monotone_example =
    quote_tow_fare_monotone (some car) true 2000 14200 20000 rates (omega arith)

within : tow_history_amount (some 60000 ∷ []) ≤ 500000
unfolding tow_history_amount
within = omega arith
