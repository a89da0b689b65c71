-- ===== src/Bill/Breakdown.antt =====
-- The second part of service/bill/breakdown.ts: the lines that explain a bill's amount. A line's
-- text is kept as the values that it prints.
pub mod Laws
use roadassistapp_be.Base.{
  ℕ, ◌+◌, ◌-◌, ◌*◌, ◌/◌, Bool, true, false, not, ◌&&◌, ◌||◌, Option, none, some, List, [], ◌∷◌,
  ◌++◌, if◌then◌else◌, or_else, ltb, leb,
}
use roadassistapp_be.Base.Int.{ℤ, pos, ◌+ℤ◌, ◌-ℤ◌, sub_ℕ, ltb_ℤ, eqb_ℤ, abs, round_div}
use roadassistapp_be.Status.{
  TicketType, sos, tow, mechanic, walk_in, unfixable, resolved_unfixable, ◌=ˢ◌,
}
use roadassistapp_be.Ticket.{Ticket, MobileFee}
use roadassistapp_be.Bill.Snapshot.{Snapshot, tow_fare_snapshot, wait_minutes, round_1k}

pub data BreakdownCode : Type 0 where
  base distance waiting prior_tow night ceiling adjustment rounding traveled : BreakdownCode
  callout travel repair prior_visit visit : BreakdownCode

-- The values in the text of a line.
pub data Detail : Type 0 where
  no_detail : Detail
  minutes : ℕ → Detail
  kilometres : ℕ → Detail
  includes_first : ℕ → Detail
  tow_distance : ℕ → Option ℕ → Option (ℕ × ℕ) → Detail
  times_multiplier : ℕ → Detail
  night_rate : Detail
  capped_at : ℕ → Detail
  nearest_1000 : Detail
  final_fare : ℕ → Detail
  prior_towers : ℕ → Detail
  call_out_and_travel : Detail
  travel_rate : ℕ → ℕ → Detail

pub record Line : Type 0 where
  pub code : BreakdownCode
  pub amount : ℤ
  pub detail : Detail

abbrev line : BreakdownCode → ℤ → Detail → Line
line code amount detail = record { code = code; amount = amount; detail = detail }

-- `breakdown.reduce((sum, row) => sum + row.amount, 0)`
unfoldable pub sum_lines : List Line → ℤ
sum_lines [] = pos 0
sum_lines (l ∷ ls) = l.amount +ℤ sum_lines ls

abbrev option_detail : (ℕ → Detail) → Option ℕ → Detail
option_detail f none = no_detail
option_detail f (some n) = f n

abbrev route_part : Option ℕ → Option ℕ → Option ℕ → Option (ℕ × ℕ)
route_part (some d) (some b) included = some (d, or_else included 0)
route_part _ _ included = none

-- `towDistanceDetail`
abbrev tow_distance_detail : Option ℕ → Option ℕ → Option ℕ → Option ℕ → Detail
tow_distance_detail none none included rate = no_detail
tow_distance_detail (some d) none included rate = tow_distance d rate none
tow_distance_detail d (some b) included rate =
    tow_distance (b * 10) rate (route_part d (some b) included)

-- `waitingLine`
waiting_line : ℕ → Ticket → ℕ → Line
unfolding wait_minutes
waiting_line now t fee = line waiting (pos fee) (option_detail minutes (wait_minutes now t.waiting))

abbrev waiting_lines : ℕ → Ticket → ℕ → List Line
waiting_lines now t fee = if ltb 0 fee then waiting_line now t fee ∷ [] else []

-- `partialLines`
partial_lines : ℕ → Ticket → ℕ → Snapshot → List Line
unfolding waiting_line
partial_lines now t amount s =
    line traveled (pos (amount - s.history_amount - s.waiting_fee))
      (option_detail kilometres s.distance_m)
    ∷ waiting_lines now t s.waiting_fee

-- `snapshot.perKmFee * snapshot.billableKm`, in hundredths of a dong, if both are known.
abbrev distance_fee : Snapshot → Option ℕ
distance_fee s = elim s.per_km_fee [
  | none ↦ none
  | some rate ↦ elim s.billable_hkm [ none ↦ none | some km ↦ some (rate * km) ]
]

abbrev distance_amount : ℕ → Snapshot → Option ℕ → ℕ
distance_amount amount s (some fee) = round_1k fee
distance_amount amount s none = amount - s.base_fee - s.waiting_fee - s.history_amount

-- `round1k((multiplier - 1) * preNight)`, the multiplier in thousandths and the fee in hundredths;
-- `Math.round` takes a half to the greater number, also below zero.
abbrev night_surcharge : ℕ → ℕ → ℤ
night_surcharge multiplier fee =
    if leb 1000 multiplier
    then pos (round_div ((multiplier - 1000) * fee) 100000000 * 1000)
    else sub_ℕ 0 ((2 * ((1000 - multiplier) * fee) + 100000000 - 1) / 200000000 * 1000)

abbrev night_amount : ℕ → Snapshot → ℕ → Option ℕ → ℤ
night_amount amount s fee (some multiplier) = night_surcharge multiplier fee
night_amount amount s fee none = pos (
    amount
    - s.base_fee
    - distance_amount amount s (distance_fee s)
    - s.waiting_fee
    - s.history_amount)

abbrev night_detail : Option ℕ → Detail
night_detail none = night_rate
night_detail (some multiplier) = times_multiplier multiplier

abbrev night_lines : ℕ → Snapshot → List Line
night_lines amount s =
    let surcharge : ℤ =
      night_amount amount s (s.base_fee * 100 + or_else (distance_fee s) 0) s.night_multiplier in
    if s.night && not (eqb_ℤ surcharge (pos 0))
    then line night surcharge (night_detail s.night_multiplier) ∷ []
    else []

-- `normalLines`
normal_lines : ℕ → Ticket → ℕ → Snapshot → List Line
unfolding waiting_line
normal_lines now t amount s =
    line base (pos s.base_fee) (option_detail includes_first s.included_m)
    ∷ line distance (pos (distance_amount amount s (distance_fee s)))
        (tow_distance_detail s.distance_m s.billable_hkm s.included_m s.per_km_fee)
    ∷ (night_lines amount s ++ waiting_lines now t s.waiting_fee)

abbrev is_capped : ℤ → ℤ → Option ℕ → Bool
is_capped amount computed none = false
is_capped amount computed (some c) = ltb_ℤ (pos c) computed && leb (abs (amount -ℤ pos c)) 1

-- `adjustmentLine`: the line, if any, that makes up for the difference.
abbrev adjustment_lines : ℕ → ℤ → Option ℕ → List Line
adjustment_lines amount computed cap =
    let difference = pos amount -ℤ computed in
    if eqb_ℤ difference (pos 0)
    then []
    else if is_capped (pos amount) computed cap
    then line ceiling difference (option_detail capped_at cap) ∷ []
    else if leb (abs difference) 500
    then line rounding difference nearest_1000 ∷ []
    else line adjustment difference (final_fare amount) ∷ []

abbrev history_lines : Snapshot → List Line
history_lines s =
    if ltb 0 s.history_amount
    then line prior_tow (pos s.history_amount)
        (if ltb 1 s.history_count then prior_towers s.history_count else no_detail)
      ∷ []
    else []

abbrev closed_lines : ℕ → Option ℕ → List Line → List Line
closed_lines amount cap [] = line visit (pos amount) no_detail ∷ []
closed_lines amount cap (l ∷ ls) = (l ∷ ls) ++ adjustment_lines amount (sum_lines (l ∷ ls)) cap

-- The lines before the difference is made up for.
fare_lines : ℕ → Ticket → ℕ → Snapshot → List Line
unfolding partial_lines normal_lines
fare_lines now t amount s =
    (if s.partial
      then partial_lines now t amount s
      else if s.has_fare
      then normal_lines now t amount s
      else [])
    ++ history_lines s

-- `towBreakdown`
unfoldable pub tow_breakdown : ℕ → Ticket → ℕ → List Line
unfolding fare_lines
tow_breakdown now t amount =
    let s = tow_fare_snapshot t in closed_lines amount s.ceiling (fare_lines now t amount s)

-- The `PRIOR_VISIT` lines; a visit that cost nothing has none.
prior_visit_lines : List MobileFee → List Line
prior_visit_lines [] = []
prior_visit_lines (row ∷ rows) =
    let value : ℕ = or_else row.call_out_fee 0 + or_else row.travel_fee 0 in
    let rest = prior_visit_lines rows in
    if leb value 0 then rest else line prior_visit (pos value) call_out_and_travel ∷ rest

abbrev travel_detail : Option ℕ → Option ℕ → Detail
travel_detail (some km) (some rate) = travel_rate km rate
travel_detail _ _ = no_detail

-- `if (c && amount > 0) push(...)`
line_if : Bool → BreakdownCode → ℕ → Detail → List Line
line_if c code amount detail = if c && ltb 0 amount then line code (pos amount) detail ∷ [] else []

abbrev is_unfixable : Ticket → Bool
is_unfixable t = t.status =ˢ unfixable || t.status =ˢ resolved_unfixable

sos_lines : Ticket → List Line
unfolding prior_visit_lines line_if
sos_lines t =
    prior_visit_lines t.mobile_fee_history
    ++ (line_if true callout (or_else t.mobile_call_out_fee 0) no_detail
        ++ (line_if (not (is_unfixable t)) travel (or_else t.mobile_travel_fee 0)
              (travel_detail t.mobile_travel_hkm t.mobile_travel_rate)
            ++ line_if (not (is_unfixable t)) repair (or_else t.final_amount 0) no_detail))

abbrev visit_if_empty : ℕ → List Line → List Line
visit_if_empty amount [] = line visit (pos amount) no_detail ∷ []
visit_if_empty amount (l ∷ ls) = l ∷ ls

-- `sosBreakdown`
unfoldable pub sos_breakdown : Ticket → ℕ → List Line
unfolding sos_lines
sos_breakdown t amount = visit_if_empty amount (sos_lines t)

abbrev lines_by_type : TicketType → ℕ → Ticket → ℕ → List Line
lines_by_type tow now t amount = tow_breakdown now t amount
lines_by_type sos now t amount = sos_breakdown t amount
lines_by_type mechanic now t amount = line visit (pos amount) no_detail ∷ []
lines_by_type walk_in now t amount = line visit (pos amount) no_detail ∷ []

-- `breakdownFor`
unfoldable pub breakdown_for : ℕ → Ticket → ℕ → List Line
unfolding tow_breakdown sos_breakdown
breakdown_for now t amount = lines_by_type t.ticket_type now t amount
