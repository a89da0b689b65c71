-- ===== src/Bill/Snapshot.antt =====
-- The first part of service/bill/breakdown.ts: what a tow's fare record says, with its defaults.
use roadassistapp_be.Base.{
  ℕ, ◌+◌, ◌-◌, ◌*◌, Bool, true, false, Option, none, some, List, [], ◌∷◌, if◌then◌else◌, or_else,
  ltb,
}
use roadassistapp_be.Base.Int.{round_div}
use roadassistapp_be.Ticket.{Ticket, TowFare, VehicleClass, solo_bike, car}

-- `round1k` of a number of hundredths of a dong.
abbrev pub round_1k : ℕ → ℕ
round_1k hundredths = round_div hundredths 100000 * 1000

-- `includedKmFor`
unfoldable pub included_for : Option VehicleClass → Option ℕ → Option ℕ
included_for cls (some stored) = some stored
included_for (some car) none = some 10000
included_for (some solo_bike) none = some 3000
included_for none none = none

-- `waitMinutes`: whole minutes between the start and the end of the wait, or `now`.
unfoldable pub wait_minutes : ℕ → Option (Option ℕ × Option ℕ) → Option ℕ
wait_minutes now none = none
wait_minutes now (some (none, ended)) = none
wait_minutes now (some (some started, ended)) = some (round_div (or_else ended now - started) 60000)

pub record Snapshot : Type 0 where
  pub has_fare : Bool
  pub base_fee : ℕ
  pub per_km_fee : Option ℕ
  pub included_m : Option ℕ
  pub night : Bool
  pub night_multiplier : Option ℕ
  pub ceiling : Option ℕ
  pub partial : Bool
  pub waiting_fee : ℕ
  pub distance_m : Option ℕ
  pub billable_hkm : Option ℕ
  pub history_amount : ℕ
  pub history_count : ℕ

-- The sum of the positive numbers among `towFeeHistory[].amount`.
unfoldable pub positive_history : List (Option ℕ) → ℕ
positive_history [] = 0
positive_history (a ∷ rows) =
    (if ltb 0 (or_else a 0) then or_else a 0 else 0) + positive_history rows

unfoldable pub history_length : List (Option ℕ) → ℕ
history_length [] = 0
history_length (a ∷ rows) = 1 + history_length rows

-- The kilometres over the included ones, in hundredths.
abbrev over_included : Option ℕ → Option ℕ → Option ℕ
over_included (some distance) (some included) = some (round_div (distance - included) 10)
over_included _ _ = none

abbrev or_option : Option ℕ → Option ℕ → Option ℕ
or_option none b = b
or_option (some a) b = some a

abbrev or_class : Option VehicleClass → Option VehicleClass → Option VehicleClass
or_class none b = b
or_class (some a) b = some a

-- The fields that come from `towFare`, when it is an object.
fare_snapshot : TowFare → Ticket → Snapshot
unfolding included_for positive_history history_length
fare_snapshot fare t =
    let included = included_for (or_class fare.fare_class t.vehicle_class) fare.included_m in
    let distance : Option ℕ = or_option t.tow_actual_m fare.loaded_m in
    record {
      has_fare = true;
      base_fee = or_else fare.base_fee 0;
      per_km_fee = fare.per_km_fee;
      included_m = included;
      night = fare.night;
      night_multiplier = or_option fare.night_multiplier (if fare.night then some 1500 else none);
      ceiling = fare.ceiling;
      partial = fare.partial;
      waiting_fee = or_else fare.waiting_fee 0;
      distance_m = distance;
      billable_hkm = or_option fare.billable_hkm (over_included distance included);
      history_amount = positive_history t.tow_fee_history;
      history_count = history_length t.tow_fee_history;
    }

no_fare_snapshot : Ticket → Snapshot
unfolding included_for positive_history history_length
no_fare_snapshot t =
    let included = included_for t.vehicle_class none in
    record {
      has_fare = false;
      base_fee = 0;
      per_km_fee = none;
      included_m = included;
      night = false;
      night_multiplier = none;
      ceiling = none;
      partial = false;
      waiting_fee = 0;
      distance_m = t.tow_actual_m;
      billable_hkm = over_included t.tow_actual_m included;
      history_amount = positive_history t.tow_fee_history;
      history_count = history_length t.tow_fee_history;
    }

abbrev from_fare : Option TowFare → Ticket → Snapshot
from_fare none t = no_fare_snapshot t
from_fare (some fare) t = fare_snapshot fare t

-- `towFareSnapshot`
unfoldable pub tow_fare_snapshot : Ticket → Snapshot
unfolding fare_snapshot no_fare_snapshot
tow_fare_snapshot t = from_fare t.tow_fare t
