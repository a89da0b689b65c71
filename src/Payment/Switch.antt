-- ===== src/Payment/Switch.antt =====
-- service/paymentMethodSwitch.ts. Asking SePay to cancel an order is a call to their service: the
-- parameter `cancel_order`, of the order's reference, returns a message when SePay refuses.
pub mod Sound
use roadassistapp_be.Base.{
  ℕ, ◌==◌, Bool, not, ◌&&◌, Option, none, some, List, if◌then◌else◌, find, String,
}
use roadassistapp_be.Base.Result.{◌>>=◌, ok, err, conflict, not_found, forbidden}
use roadassistapp_be.PaymentStatus.{cancelled, is_active, is_pending, is_cash}
use roadassistapp_be.Payment.{Payment, is_deposit, find_by_ticket, update_status, clear_guard}
use roadassistapp_be.Payment.World.{World, Reply, TicketRow, find_ticket, update_ticket}

abbrev active_balance : Payment → Bool
active_balance p = not (is_deposit p.purpose) && is_active p.status

-- The first active payment of a ticket that is not its deposit.
unfoldable pub find_active : List Payment → Option Payment
find_active rows = find active_balance rows

abbrev stamp_cancelled : Payment → TicketRow → TicketRow
stamp_cancelled p r = record r {
  payment_id = some p.id;
  payment_method = some p.method;
  payment_status = some p.status;
  checkout_url = none;
}

-- What follows the checks of `cancelActiveForSwitch`.
unfoldable pub cancel_now : Payment → ℕ → World → Reply (Unit {0})
unfolding update_status clear_guard
cancel_now active ticket w =
    let (after, found) = update_status active.id cancelled (λ p. p) w.store in
    elim found [
      | none ↦ (record w { store = after }, err (conflict "Payment could not be cancelled"))
      | some p ↦ (
        update_ticket ticket (stamp_cancelled p)
            (record w { store = clear_guard ticket active.id after }),
        ok tt,
      )
    ]

module _ (cancel_order : Option ℕ → Option String) where
  abbrev sepay_refusal : Payment → Option String
  sepay_refusal p = if is_cash p.method then none else cancel_order p.qr_ref

  -- `cancelActiveForSwitch`
  unfoldable pub cancel_active_for_switch : Payment → ℕ → World → Reply (Unit {0})
  unfolding cancel_now
  cancel_active_for_switch active ticket w =
      if not (is_pending active.status)
      then (w, err (conflict "Payment already received; refund required to change method"))
      else elim (sepay_refusal active) [
        | some m ↦ (w, err (conflict m))
        | none ↦ cancel_now active ticket w
      ]

  abbrev cancel_found : Option Payment → ℕ → World → Reply (Option Payment)
  cancel_found none ticket w = (w, ok none)
  cancel_found (some active) ticket w =
      if not (is_pending active.status)
      then (w, err (conflict "Payment already received; refund required to cancel"))
      else (let (after, r) = cancel_active_for_switch active ticket w in
          (after, r >>= λ _. ok (some active)))

  -- `cancelPendingPayment`: the payment that it cancels, if there is one.
  unfoldable pub cancel_pending_payment : ℕ → ℕ → World → Reply (Option Payment)
  unfolding find_by_ticket find_active cancel_active_for_switch
  cancel_pending_payment user ticket w = elim (find_ticket ticket w) [
    | none ↦ (w, err (not_found "Dispatch ticket not found"))
    | some row ↦
        if not (row.ticket.user_id == user)
        then (w, err (forbidden "Only the rider cancels this payment"))
        else cancel_found (find_active (find_by_ticket ticket w.store.payments)) ticket w
  ]
