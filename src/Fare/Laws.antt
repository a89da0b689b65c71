-- ===== src/Fare/Laws.antt =====
-- Bounds of tow fares.
use roadassistapp_be.Base.{
  ℕ, ◌+◌, ◌*◌, ◌≤◌, ◌<◌, ◌≡◌, ◌↔◌, min, max, Bool, false, Option, some, List, arith,
}
use native.Mathlib.Nat.{mul-le-mul_left, mul-le-mul_right, min-eq_left}
use roadassistapp_be.Base.Int.{round_div}
use roadassistapp_be.Ticket.{VehicleClass}
use roadassistapp_be.Bill.Amount.{tow_history_amount}
use roadassistapp_be.Fare.{
  TowRates, TowRateTable, TowFareQuote, table_for, quote_tow_fare, estimate_for, billable_hkm_for,
  settle_tow_fare, fare_cap, stamped_fare, is_night_fare, night_mult, round_fare,
}

-- There is a minute that is not a night minute exactly if the window ends before it starts: a
-- window within one day makes all of the day a night.
pub is_night_fare_iff :
    (rates : TowRates)
    → ((minutes : ℕ) × (is_night_fare rates minutes ≡ false))
      ↔ (rates.night_end < rates.night_start)
unfolding is_night_fare
is_night_fare_iff rates =
    (λ (minutes, h). ground (arith, h), λ h. (rates.night_end, ground (arith, h)))

-- What earlier towers have earned and what is stamped for the next one stay within the cap on the
-- ticket, as long as the earlier towers stayed within it.
pub stamped_fare_within_cap :
    (quote : TowFareQuote) (cap : ℕ) (history : List (Option ℕ)) (on_file : Option ℕ)
    → tow_history_amount history ≤ cap
    → tow_history_amount history + (stamped_fare quote (fare_cap (some cap) history on_file)).1
      ≤ cap
unfolding stamped_fare fare_cap
stamped_fare_within_cap quote cap history on_file h = omega arith

add_mono : (c : ℕ) {a b : ℕ} → a ≤ b → c + a ≤ c + b
add_mono c h = omega arith

le_max : (a b : ℕ) → a ≤ max a b
le_max a b = omega arith

max_mono : (c a b : ℕ) → a ≤ b → max c a ≤ max c b
max_mono c a b h = omega arith

-- A ceiling of at least the estimate, which is whole thousands, stays so when it is rounded.
round_ceiling : (n m : ℕ) → 1000 ≤ m → n * 1000 ≤ round_fare (n * 1000 * m) 1000
round_ceiling n m h = let x = mul-le-mul_left (n * 1000) h in omega arith

-- With a ceiling multiplier of at least one, a quote settles at its estimate.
pub settle_tow_fare_estimate :
    (cls : Option VehicleClass) (night : Bool) (deadhead loaded : ℕ) (rates : TowRates)
    → 1000 ≤ rates.ceiling_multiplier
    → settle_tow_fare (quote_tow_fare cls night deadhead loaded rates)
      ≡ (quote_tow_fare cls night deadhead loaded rates).estimate
unfolding quote_tow_fare estimate_for
settle_tow_fare_estimate cls night deadhead loaded rates h =
    let table = table_for cls rates in
    let parts = max (rates.minimum_fee * 100000) (
      night_mult night rates.night_multiplier
      * (table.base_fee * 100 + table.per_km * billable_hkm_for table loaded)) in
    min-eq_left (round_ceiling (round_div parts (1000 * 100000)) rates.ceiling_multiplier h)

billable_mono :
    (table : TowRateTable) (a b : ℕ) → a ≤ b → billable_hkm_for table a ≤ billable_hkm_for table b
unfolding billable_hkm_for
billable_mono table a b h = omega arith

round_mono : (a b : ℕ) → a ≤ b → round_fare a 100000 ≤ round_fare b 100000
round_mono a b h = omega arith

settle_mono :
    (a b multiplier : ℕ)
    → a ≤ b
    → min a (round_fare (a * multiplier) 1000) ≤ min b (round_fare (b * multiplier) 1000)
settle_mono a b multiplier h = let x = mul-le-mul_right multiplier h in omega arith

-- A longer loaded distance lowers neither the estimate nor the fare that is settled, and the
-- estimate is at least the minimum fee, rounded to thousands.
pub quote_tow_fare_monotone :
    (cls : Option VehicleClass) (night : Bool) (deadhead a b : ℕ) (rates : TowRates)
    → a ≤ b
    → (round_fare (rates.minimum_fee * 100000) 100000
        ≤ (quote_tow_fare cls night deadhead a rates).estimate)
      × ((quote_tow_fare cls night deadhead a rates).estimate
          ≤ (quote_tow_fare cls night deadhead b rates).estimate)
      × (settle_tow_fare (quote_tow_fare cls night deadhead a rates)
          ≤ settle_tow_fare (quote_tow_fare cls night deadhead b rates))
unfolding quote_tow_fare estimate_for
quote_tow_fare_monotone cls night deadhead a b rates h =
    let table = table_for cls rates in
    let mult = night_mult night rates.night_multiplier in
    let floor = rates.minimum_fee * 100000 in
    let at = λ (x : ℕ). mult * (table.base_fee * 100 + table.per_km * billable_hkm_for table x) in
    let grows : at a ≤ at b = mul-le-mul_left mult (
      add_mono (table.base_fee * 100) (mul-le-mul_left table.per_km (billable_mono table a b h))) in
    let longer =
      round_mono (max floor (at a)) (max floor (at b)) (max_mono floor (at a) (at b) grows) in
    (
      round_mono floor (max floor (at a)) (le_max floor (at a)),
      longer,
      settle_mono (estimate_for rates table night (billable_hkm_for table a))
          (estimate_for rates table night (billable_hkm_for table b)) rates.ceiling_multiplier
          longer,
    )
