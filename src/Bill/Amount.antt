-- ===== src/Bill/Amount.antt =====
-- `billableAmountFor` and `expectedAmountFor` of service/paymentService.ts, and `depositCreditFor`
-- of service/payment/depositCredit.ts.
use roadassistapp_be.Base.{
  ℕ, ◌+◌, ◌-◌, ◌==◌, Bool, true, false, not, ◌&&◌, ◌||◌, Option, none, some, List, [], ◌∷◌,
  if◌then◌else◌, or_else, is_some, is_none, is_id, leb,
}
use roadassistapp_be.Base.Result.{Result, ok, err, validation}
use roadassistapp_be.Status.{
  TicketType, sos, tow, mechanic, walk_in, resolved, ready, quoted, unfixable, resolved_unfixable,
  cancelled, ◌=ˢ◌,
}
use roadassistapp_be.Ticket.{
  Ticket, TowFare, MobileFee, Approval, approved, is_warranty_rework, is_credited,
}

pub record Billable : Type 0 where
  pub amount : ℕ
  pub waiting_fee : ℕ

-- MOBILE_SHOP_CALL_OUT_FEE
abbrev pub mobile_shop_call_out_fee : ℕ
mobile_shop_call_out_fee = 50000

-- `ticket.cancelledBy === ticket.userId` on a cancelled ticket.
abbrev pub rider_cancelled : Ticket → Bool
rider_cancelled t = t.status =ˢ cancelled && is_id t.cancelled_by t.user_id

-- The sum of the numbers among `towFeeHistory[].amount`.
unfoldable pub tow_history_amount : List (Option ℕ) → ℕ
tow_history_amount [] = 0
tow_history_amount (a ∷ rows) = or_else a 0 + tow_history_amount rows

unfoldable pub mobile_history_amount : List MobileFee → ℕ
mobile_history_amount [] = 0
mobile_history_amount (row ∷ rows) =
    or_else row.call_out_fee 0 + or_else row.travel_fee 0 + mobile_history_amount rows

-- `fare.final`, or else `fare.estimate`; with no fare on file, `finalAmount`.
abbrev pub tow_base : Option TowFare → Option ℕ → Option ℕ
tow_base none final_amount = final_amount
tow_base (some fare) final_amount = if is_some fare.final then fare.final else fare.estimate

abbrev pub tow_waiting_fee : Option TowFare → ℕ
tow_waiting_fee none = 0
tow_waiting_fee (some fare) = or_else fare.waiting_fee 0

unfoldable pub tow_billable : Ticket → Option Billable
tow_billable t =
    let history = tow_history_amount t.tow_fee_history in
    let re_matched = rider_cancelled t && is_none t.assigned_shop_id in
    let base : Option ℕ = if re_matched then none else tow_base t.tow_fare t.final_amount in
    let waiting_fee = tow_waiting_fee t.tow_fare in
    if not (t.status =ˢ resolved) && not (rider_cancelled t)
    then none
    else if is_none base && history == 0
    then none
    else some
        (record { amount = or_else base 0 + history + waiting_fee; waiting_fee = waiting_fee })

unfoldable pub sos_billable : Ticket → Option Billable
sos_billable t =
    let history = mobile_history_amount t.mobile_fee_history in
    let assigned = is_some t.assigned_shop_id in
    let call_out = or_else t.mobile_call_out_fee mobile_shop_call_out_fee in
    let travel = or_else t.mobile_travel_fee 0 in
    let fix = or_else t.final_amount 0 in
    if not assigned && history == 0
    then none
    else if assigned
        && (t.status =ˢ resolved || t.status =ˢ ready || t.status =ˢ quoted)
        && is_some t.final_amount
    then some (record { amount = history + call_out + travel + fix; waiting_fee = 0 })
    else if t.status =ˢ unfixable || t.status =ˢ resolved_unfixable
    then some (record { amount = history + (if assigned then call_out else 0); waiting_fee = 0 })
    else if rider_cancelled t
    then some
        (record { amount = history + (if assigned then call_out + travel else 0); waiting_fee = 0 })
    else none

abbrev pub is_approved : Option Approval → Bool
is_approved (some approved) = true
is_approved _ = false

abbrev plain : Option ℕ → Option Billable
plain none = none
plain (some n) = some (record { amount = n; waiting_fee = 0 })

unfoldable pub shop_billable : Ticket → Option Billable
shop_billable t =
    if is_approved t.invoice_approval && is_some t.invoice_amount
    then plain t.invoice_amount
    else if is_some t.shop_quoted_amount
    then plain t.shop_quoted_amount
    else plain t.final_amount

abbrev by_type : TicketType → Ticket → Option Billable
by_type tow t = tow_billable t
by_type sos t = sos_billable t
by_type mechanic t = shop_billable t
by_type walk_in t = shop_billable t

unfoldable pub billable_amount_for : Ticket → Option Billable
billable_amount_for t = if is_warranty_rework t then none else by_type t.ticket_type t

unfoldable pub deposit_credit_for : Ticket → ℕ
deposit_credit_for t =
    let amount : ℕ = or_else t.deposit_amount 0 in
    if leb amount 0 then 0 else if not (is_credited t.deposit_status) then 0 else amount

abbrev owed : Option Billable → ℕ → Result ℕ
owed none credit = err (validation "Ticket has no payable amount yet")
owed (some b) credit =
    if leb b.amount 0
    then err (validation "Ticket has no payable amount yet")
    else ok (b.amount - credit)

unfoldable pub expected_amount_for : Ticket → Result ℕ
expected_amount_for t = owed (billable_amount_for t) (deposit_credit_for t)
