-- ===== src/Bill/Deposit.antt =====
-- service/bill/deposit.ts: the deposit shown on a bill, and the status of a bill's item.
use roadassistapp_be.Base.{ℕ, ◌==◌, Bool, ◌&&◌, Option, none, some, if◌then◌else◌, or_else, ltb}
use roadassistapp_be.PaymentStatus.{
  PaymentStatus, pending, held, confirmed, refunded, partial, disputed, cancelled,
}
use roadassistapp_be.Ticket.{Ticket, DepositStatus, is_credited}

-- BILL_ITEM_STATUS
pub data ItemStatus : Type 0 where
  item_unpaid item_pending item_paid item_refunded item_partial item_void : ItemStatus

pub record DepositInfo : Type 0 where
  pub amount : ℕ
  pub status : Option DepositStatus
  pub credit : ℕ
  -- Whether `view` is shown.
  pub shown : Bool

unfoldable pub deposit_info_for : Ticket → DepositInfo
deposit_info_for t =
    let amount : ℕ = or_else t.deposit_amount 0 in
    record {
      amount = amount;
      status = t.deposit_status;
      credit = if ltb 0 amount && is_credited t.deposit_status then amount else 0;
      shown = ltb 0 amount;
    }

pub record StatusInput : Type 0 where
  pub payment_status : Option PaymentStatus
  pub payment_missing : Bool
  pub deposit_payment : Bool
  pub deposit_credit : ℕ
  pub amount_due : ℕ
  pub voided : Bool

abbrev unsettled : StatusInput → ItemStatus
unsettled i =
    if i.payment_missing && ltb 0 i.deposit_credit && i.amount_due == 0
    then item_paid
    else item_unpaid

abbrev settled : StatusInput → ItemStatus
settled i =
    if i.deposit_payment
    then (if i.amount_due == 0
        then item_paid
        else if ltb 0 i.deposit_credit
        then item_partial
        else item_pending)
    else item_paid

abbrev by_payment : Option PaymentStatus → StatusInput → ItemStatus
by_payment (some held) i = settled i
by_payment (some confirmed) i = settled i
by_payment (some refunded) i = item_refunded
by_payment (some partial) i = item_partial
by_payment (some pending) i = if i.voided then item_void else item_pending
by_payment (some disputed) i = if i.voided then item_void else unsettled i
by_payment (some cancelled) i = if i.voided then item_void else unsettled i
by_payment none i = if i.voided then item_void else unsettled i

unfoldable pub bill_status_for : StatusInput → ItemStatus
bill_status_for i = by_payment i.payment_status i
