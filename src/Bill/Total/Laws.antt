-- ===== src/Bill/Total/Laws.antt =====
-- What the sums of a bill say.
use roadassistapp_be.Base.{ℕ, ◌+◌, ◌<◌, ◌≡◌, ◌≢◌, ◌⊎◌, true, some, List, arith}
use roadassistapp_be.Ticket.{Ticket}
use roadassistapp_be.PaymentStatus.{held}
use roadassistapp_be.Bill.Deposit.{
  item_unpaid, item_pending, item_paid, item_partial, deposit_info_for, bill_status_for,
}
use roadassistapp_be.Bill.Total.{PaymentView, Item, bill_void, payment_of, build_item, build_bill}

-- For an item that is unpaid or awaits its payment, the bill's due is what a payment would ask; for
-- one that is unpaid, pending or paid, what is paid and what is due make up the item's amount.
pub build_bill_balances :
    (now : ℕ) (t : Ticket) (ps : List PaymentView) {i : Item}
    → build_item now t ps ≡ some i
    → (i.status ≡ item_unpaid) ⊎ ((i.status ≡ item_pending) ⊎ (i.status ≡ item_paid))
    → ((build_bill now t ps).paid + (build_bill now t ps).due ≡ i.amount)
      × ((build_bill now t ps).total ≡ i.amount)
      × (i.status ≢ item_paid → (build_bill now t ps).due ≡ i.amount_due)
unfolding build_bill build_item deposit_info_for
build_bill_balances now t ps h s = ground arith

-- After the deposit of a bill was received, and while a balance is still owed and no other payment
-- was made, the bill says that nothing was paid and nothing is due, and is void.
pub build_bill_after_deposit :
    (now : ℕ) (t : Ticket) (ps : List PaymentView) {i : Item}
    → build_item now t ps ≡ some i
    → payment_of ps ≡ some (record { status = held; is_deposit = true })
    → 0 < (deposit_info_for t).credit
    → 0 < i.amount_due
    → (i.status ≡ item_partial)
      × ((build_bill now t ps).paid ≡ 0)
      × ((build_bill now t ps).due ≡ 0)
      × ((build_bill now t ps).status ≡ bill_void)
unfolding build_bill build_item bill_status_for
build_bill_after_deposit now t ps h p c d = ground arith
