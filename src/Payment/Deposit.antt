-- ===== src/Payment/Deposit.antt =====
-- service/paymentDepositService.ts
pub mod Sound
use roadassistapp_be.Base.{
  ℕ, ◌==◌, Bool, true, false, not, ◌&&◌, Option, none, some, ◌∷◌, if◌then◌else◌, find, or_else, leb,
}
use roadassistapp_be.Base.Result.{
  Result, ok, err, not_found, forbidden, validation, ◌>>◌, throw_if, require,
}
use roadassistapp_be.PaymentStatus.{PaymentMethod, sepay, is_active, is_pending, is_cash}
use roadassistapp_be.Ticket.{Ticket, requested, confirmed}
use roadassistapp_be.Payment.{Payment, deposit, is_deposit, find_by_ticket, create_guarded}
use roadassistapp_be.Payment.World.{
  World, Reply, TicketRow, Config, PaymentWithCheckout, find_ticket, update_ticket,
  resolve_payee_id,
}
use roadassistapp_be.Payment.Collect.{Fresh, payment_input}

abbrev active_deposit : Payment → Bool
active_deposit p = is_deposit p.purpose && is_active p.status

-- A deposit that is already asked for, with its checkout while it can be paid by SePay.
abbrev reused_deposit : Payment → PaymentWithCheckout
reused_deposit p = record {
  payment = p;
  checkout = if is_pending p.status && not (is_cash p.method) then some p.id else none;
  reused = true;
}

abbrev request_deposit : ℕ → TicketRow → TicketRow
request_deposit payment r = record r {
  ticket = record (r.ticket) { deposit_status = some requested };
  deposit_payment_id = some payment;
}

-- The deposit is asked for, whether or not `createGuarded` made a new payment.
unfoldable pub open_deposit : Fresh → Config → Ticket → ℕ → World → Reply PaymentWithCheckout
unfolding create_guarded resolve_payee_id payment_input
open_deposit fresh config t amount w = elim (resolve_payee_id t w.shops) [
  | err e ↦ (w, err e)
  | ok payee ↦
      let (after, created) =
        create_guarded fresh.id fresh.now
          (payment_input t.id t.user_id payee sepay amount (config.commission_rate t.ticket_type)
            deposit fresh.qr_ref)
          w.store in
      (
        update_ticket t.id (request_deposit created.payment.id) (record w { store = after }),
        ok (record {
          payment = created.payment;
          checkout = some created.payment.id;
          reused = false;
        }),
      )
]

abbrev check_deposit : ℕ → Ticket → Result ℕ
check_deposit user t =
    require (t.user_id == user) (forbidden "Only the rider pays the deposit")
    >> throw_if (leb (or_else t.deposit_amount 0) 0) (validation "This ticket has no deposit")
    >> ok (or_else t.deposit_amount 0)

abbrev deposit_for : Fresh → Config → ℕ → TicketRow → World → Reply PaymentWithCheckout
deposit_for fresh config user row w = elim (check_deposit user row.ticket) [
  | err e ↦ (w, err e)
  | ok amount ↦ elim (find active_deposit (find_by_ticket row.ticket.id w.store.payments)) [
    | some p ↦ (w, ok (reused_deposit p))
    | none ↦ open_deposit fresh config row.ticket amount w
  ]
]

-- `createDepositPayment`
unfoldable pub create_deposit_payment :
    Fresh → Config → ℕ → ℕ → Option PaymentMethod → World → Reply PaymentWithCheckout
unfolding find_by_ticket open_deposit
create_deposit_payment fresh config user ticket (some sepay) w = elim (find_ticket ticket w) [
  | none ↦ (w, err (not_found "Dispatch ticket not found"))
  | some row ↦ deposit_for fresh config user row w
]
create_deposit_payment fresh config user ticket _ w =
    (w, err (validation "Deposits are collected online only"))

abbrev mark_deposit : TicketRow → TicketRow
mark_deposit r = record r { ticket = record (r.ticket) { deposit_status = some confirmed } }

abbrev booking_of : Option TicketRow → Option ℕ
booking_of none = none
booking_of (some r) = r.booking_id

-- `markDepositConfirmed`
unfoldable pub mark_deposit_confirmed : Payment → World → World
mark_deposit_confirmed p w =
    let after = update_ticket p.ticket_id mark_deposit w in
    elim (booking_of (find_ticket p.ticket_id after)) [
      | none ↦ after
      | some b ↦ record after { confirmed_bookings = b ∷ after.confirmed_bookings }
    ]
