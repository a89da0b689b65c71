-- ===== src/Bill/Total.antt =====
-- `buildItem` and `buildBill` of service/billService.ts: what a bill says is paid and due.
pub mod Laws
use roadassistapp_be.Base.{
  ℕ, ◌-◌, min, Bool, true, false, not, ◌&&◌, Option, none, some, List, [], ◌∷◌, if◌then◌else◌,
  is_none, find, leb, ltb,
}
use roadassistapp_be.Status.{
  TicketStatus, cancelled, declined, resolved_unfixable, unfixable, is_tow, is_sos,
}
use roadassistapp_be.PaymentStatus.{PaymentStatus}
use roadassistapp_be.Ticket.{Ticket, is_credited}
use roadassistapp_be.Bill.Amount.{Billable, billable_amount_for, rider_cancelled}
use roadassistapp_be.Bill.Deposit.{
  ItemStatus, item_unpaid, item_pending, item_paid, DepositInfo, deposit_info_for, bill_status_for,
}
use roadassistapp_be.Bill.Breakdown.{Line, breakdown_for}

-- What a bill reads of a ticket's payments, the newest first.
pub record PaymentView : Type 0 where
  pub status : PaymentStatus
  pub is_deposit : Bool

-- UNPAYABLE_STATUSES
abbrev pub is_unpayable : TicketStatus → Bool
is_unpayable cancelled = true
is_unpayable declined = true
is_unpayable resolved_unfixable = true
is_unpayable unfixable = true
is_unpayable _ = false

abbrev first : List PaymentView → Option PaymentView
first [] = none
first (p ∷ ps) = some p

abbrev or_first : Option PaymentView → List PaymentView → Option PaymentView
or_first none ps = first ps
or_first (some p) ps = some p

-- `payments.find((row) => row.purpose !== "DEPOSIT") ?? payments[0] ?? null`
abbrev pub payment_of : List PaymentView → Option PaymentView
payment_of ps = or_first (find (λ p. not p.is_deposit) ps) ps

abbrev status_of : Option PaymentView → Option PaymentStatus
status_of none = none
status_of (some p) = some p.status

abbrev is_deposit_payment : Option PaymentView → Bool
is_deposit_payment none = false
is_deposit_payment (some p) = p.is_deposit

pub record Item : Type 0 where
  pub amount : ℕ
  pub amount_due : ℕ
  pub waiting_fee : ℕ
  pub deposit : DepositInfo
  pub breakdown : List Line
  pub status : ItemStatus

item_for : ℕ → Ticket → List PaymentView → Billable → Item
item_for now t payments b =
    let deposit = deposit_info_for t in
    let payment : Option PaymentView = payment_of payments in
    let due : ℕ = b.amount - deposit.credit in
    record {
      amount = b.amount;
      amount_due = due;
      waiting_fee = b.waiting_fee;
      deposit = deposit;
      breakdown = breakdown_for now t b.amount;
      status = bill_status_for (record {
        payment_status = status_of payment;
        payment_missing = is_none payment;
        deposit_payment = is_deposit_payment payment;
        deposit_credit = deposit.credit;
        amount_due = due;
        voided =
            is_unpayable t.status
            && not (is_sos t.ticket_type)
            && not (is_tow t.ticket_type && rider_cancelled t);
      });
    }

abbrev item_if_billable : ℕ → Ticket → List PaymentView → Option Billable → Option Item
item_if_billable now t payments none = none
item_if_billable now t payments (some b) =
    if leb b.amount 0 then none else some (item_for now t payments b)

-- `buildItem`
unfoldable pub build_item : ℕ → Ticket → List PaymentView → Option Item
unfolding item_for
build_item now t payments = item_if_billable now t payments (billable_amount_for t)

-- BILL_STATUS
pub data BillStatus : Type 0 where
  bill_unpaid bill_partial bill_paid bill_void : BillStatus

pub record Bill : Type 0 where
  pub total : ℕ
  pub paid : ℕ
  pub due : ℕ
  pub status : BillStatus

-- `row.deposit && (row.deposit.status === ...) ? row.deposit.amount : 0`
abbrev row_credit : DepositInfo → ℕ
row_credit d = if d.shown && is_credited d.status then d.amount else 0

abbrev paid_part : ItemStatus → ℕ → ℕ → ℕ
paid_part item_paid amount credit = amount
paid_part item_unpaid amount credit = min credit amount
paid_part item_pending amount credit = min credit amount
paid_part _ amount credit = 0

abbrev due_part : ItemStatus → ℕ → ℕ → ℕ
due_part item_unpaid amount credit = amount - credit
due_part item_pending amount credit = amount - credit
due_part _ amount credit = 0

abbrev overall : ℕ → ℕ → BillStatus
overall paid due =
    if ltb 0 due
    then (if ltb 0 paid then bill_partial else bill_unpaid)
    else (if ltb 0 paid then bill_paid else bill_void)

bill_of : ℕ → ℕ → ℕ → Bill
bill_of total paid due = record { total = total; paid = paid; due = due; status = overall paid due }

abbrev sum_up : Option Item → Bill
sum_up none = bill_of 0 0 0
sum_up (some i) =
    bill_of i.amount (paid_part i.status i.amount (row_credit i.deposit))
      (due_part i.status i.amount (row_credit i.deposit))

-- The sums of `buildBill`, over the one item that a ticket has.
unfoldable pub build_bill : ℕ → Ticket → List PaymentView → Bill
unfolding bill_of
build_bill now t payments = sum_up (build_item now t payments)
