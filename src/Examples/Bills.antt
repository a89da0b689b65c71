-- ===== src/Examples/Bills.antt =====
-- Examples of the theorems on bills.
use roadassistapp_be.Base.{
  ◌+◌, ◌<◌, ◌≡◌, ◌≢◌, refl, inl, inr, true, false, List, some, [], ◌∷◌, arith,
}
use roadassistapp_be.Base.Int.{pos}
use roadassistapp_be.PaymentStatus.{held, pending}
use roadassistapp_be.Bill.Amount.{
  Billable, billable_amount_for, sos_billable, mobile_history_amount, shop_billable,
}
use roadassistapp_be.Bill.Deposit.{
  item_pending, item_partial, item_paid, bill_status_for, deposit_info_for,
}
use roadassistapp_be.Bill.Breakdown.{
  sum_lines, tow_breakdown, sos_breakdown, breakdown_for, visit, no_detail,
}
use roadassistapp_be.Bill.Breakdown.Laws.{sum_lines-tow_breakdown, sos_breakdown_cancelled}
use roadassistapp_be.Bill.Total.{PaymentView, Item, bill_void, build_item, build_bill}
use roadassistapp_be.Bill.Total.Laws.{build_bill_balances, build_bill_after_deposit}
use roadassistapp_be.Ticket.{confirmed}
use roadassistapp_be.Examples.Samples.{tow_ticket, sos_ticket, cancelled_sos, deposit_ticket}

sum_lines-tow_breakdown_example : sum_lines (tow_breakdown 0 tow_ticket 258000) ≡ pos 258000
sum_lines-tow_breakdown_example = sum_lines-tow_breakdown 0 tow_ticket 258000

abbrev sos_bill : Billable
sos_bill = record { amount = 367000; waiting_fee = 0 }

sos_is_billed : sos_billable sos_ticket ≡ some sos_bill
unfolding sos_billable mobile_history_amount
sos_is_billed = refl

abbrev cancelled_bill : Billable
cancelled_bill = record { amount = 67000; waiting_fee = 0 }

cancelled_is_billed : sos_billable cancelled_sos ≡ some cancelled_bill
unfolding sos_billable mobile_history_amount
cancelled_is_billed = refl

sos_breakdown_cancelled_example : sum_lines (sos_breakdown cancelled_sos 67000) ≡ pos 367000
sos_breakdown_cancelled_example =
    sos_breakdown_cancelled cancelled_sos {repair_fee = 299999} refl refl refl refl
      cancelled_is_billed

abbrev deposit_item : Item
deposit_item = record {
  amount = 500000;
  amount_due = 400000;
  waiting_fee = 0;
  deposit = record { amount = 100000; status = some confirmed; credit = 100000; shown = true };
  breakdown = record { code = visit; amount = pos 500000; detail = no_detail } ∷ [];
  status = item_partial;
}

abbrev deposit_payments : List PaymentView
deposit_payments = record { status = held; is_deposit = true } ∷ []

deposit_item_built : build_item 0 deposit_ticket deposit_payments ≡ some deposit_item
unfolding build_item billable_amount_for shop_billable deposit_info_for breakdown_for
    bill_status_for
deposit_item_built = refl

credited_100000 : 0 < (deposit_info_for deposit_ticket).credit
unfolding deposit_info_for
credited_100000 = omega arith

build_bill_after_deposit_example :
    (deposit_item.status ≡ item_partial)
    × ((build_bill 0 deposit_ticket deposit_payments).paid ≡ 0)
    × ((build_bill 0 deposit_ticket deposit_payments).due ≡ 0)
    × ((build_bill 0 deposit_ticket deposit_payments).status ≡ bill_void)
build_bill_after_deposit_example =
    build_bill_after_deposit 0 deposit_ticket deposit_payments deposit_item_built refl
      credited_100000 (omega arith)

abbrev asked_payments : List PaymentView
asked_payments = record { status = pending; is_deposit = false } ∷ []

abbrev asked_item : Item
asked_item = record deposit_item { status = item_pending }

asked_item_built : build_item 0 deposit_ticket asked_payments ≡ some asked_item
unfolding build_item billable_amount_for shop_billable deposit_info_for breakdown_for
    bill_status_for
asked_item_built = refl

build_bill_balances_example :
    ((build_bill 0 deposit_ticket asked_payments).paid
        + (build_bill 0 deposit_ticket asked_payments).due
      ≡ 500000)
    × ((build_bill 0 deposit_ticket asked_payments).total ≡ 500000)
    × (asked_item.status ≢ item_paid → (build_bill 0 deposit_ticket asked_payments).due ≡ 400000)
build_bill_balances_example =
    build_bill_balances 0 deposit_ticket asked_payments asked_item_built (inr (inl refl))
