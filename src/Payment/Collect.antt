-- ===== src/Payment/Collect.antt =====
-- `createPaymentForTicket` of service/paymentService.ts for a ticket. A method that is neither cash nor SePay is `none`. A fresh
-- document id, a fresh QR reference and the time are arguments.
pub mod Sound
pub mod Shadow
pub mod Opens
use roadassistapp_be.Base.{
  ℕ, ◌*◌, ◌==◌, Bool, true, false, not, ◌&&◌, ◌||◌, Option, none, some, List, if◌then◌else◌, find,
  leb, String,
}
use roadassistapp_be.Base.Int.{round_div, sub_ℕ}
use roadassistapp_be.Base.Result.{
  Result, ok, err, conflict, not_found, forbidden, validation, ◌>>=◌, ◌>>◌, throw_if, require,
}
use roadassistapp_be.Status.{
  ◌=ˢ◌, is_tow, is_sos, resolved, resolved_unfixable, unfixable, declined,
}
use roadassistapp_be.Status
use roadassistapp_be.PaymentStatus.{
  PaymentMethod, pending, is_pending, is_cash, same_method, same_status, held, confirmed,
}
use roadassistapp_be.Ticket.{Ticket}
use roadassistapp_be.Bill.Amount.{expected_amount_for, rider_cancelled}
use roadassistapp_be.Payment.{
  Payment, Purpose, balance, deposit, is_deposit, find_by_ticket, create_guarded, Created,
  CreatePaymentInput,
}
use roadassistapp_be.Payment.World.{
  World, Reply, Config, PaymentWithCheckout, find_ticket, stamp_ticket_payment, resolve_payee_id,
}
use roadassistapp_be.Payment.Switch.{find_active, cancel_active_for_switch}

-- `payment` returned as reused.
abbrev as_is : Payment → PaymentWithCheckout
as_is p = record { payment = p; checkout = none; reused = true }

-- `asReused`
unfoldable pub as_reused : Payment → PaymentMethod → World → Reply PaymentWithCheckout
unfolding stamp_ticket_payment
as_reused p method w =
    if not (same_method p.method method)
    then (w, err (conflict "Ticket already has an active payment"))
    else if is_cash method
    then (w, ok (as_is p))
    else (
      stamp_ticket_payment p.ticket_id p (some p.id) w,
      ok (record { payment = p; checkout = some p.id; reused = true }),
    )

abbrev is_blocked : Ticket → Bool
is_blocked t =
    t.status =ˢ Status.cancelled
    || t.status =ˢ declined
    || t.status =ˢ resolved_unfixable
    || t.status =ˢ unfixable

abbrev unfixable_sos : Ticket → Bool
unfixable_sos t = is_sos t.ticket_type && (t.status =ˢ unfixable || t.status =ˢ resolved_unfixable)

-- `riderCancelled` of `createPaymentForTicket`.
abbrev cancelled_by_rider : Ticket → Bool
cancelled_by_rider t = rider_cancelled t && (is_tow t.ticket_type || is_sos t.ticket_type)

abbrev usable_method : Option PaymentMethod → Config → Result PaymentMethod
usable_method none config = err (validation "Unknown payment method")
usable_method (some method) config =
    require (config.enabled method) (validation "Payment method is disabled") >> ok method

-- The checks of `createPaymentForTicket` before it reads the payments: the method, and the amount.
unfoldable pub check_payable :
    ℕ → Ticket → Option PaymentMethod → Config → Result (PaymentMethod × ℕ)
unfolding expected_amount_for
check_payable user t method config =
    require (t.user_id == user) (forbidden "Only the rider pays for a ticket")
    >> throw_if t.dispute_hold (validation "Dispute under review")
    >> throw_if (is_blocked t && not (unfixable_sos t) && not (cancelled_by_rider t))
        (validation "Ticket is not payable")
    >> throw_if (is_tow t.ticket_type && not (t.status =ˢ resolved) && not (cancelled_by_rider t))
        (validation "Tow payment is available after the tow is resolved")
    >> (usable_method method config >>= λ m. expected_amount_for t >>= λ amount. ok (m, amount))

abbrev paid_deposit : Payment → Bool
paid_deposit p =
    is_deposit p.purpose && (same_status p.status held || same_status p.status confirmed)

abbrev not_deposit : Payment → Bool
not_deposit p = not (is_deposit p.purpose)

-- The payment that settles a ticket with nothing left to pay.
abbrev settled_by : ℕ → List Payment → Option Payment
settled_by amount existing =
    if leb amount 0
    then (elim (find paid_deposit existing) [ some p ↦ some p | none ↦ find not_deposit existing ])
    else none

abbrev pub pending_deposit : List Payment → Option Payment
pending_deposit existing = find (λ p. is_deposit p.purpose && is_pending p.status) existing

-- The input of `createGuarded`, with the commission.
unfoldable pub payment_input : ℕ → ℕ → ℕ → PaymentMethod → ℕ → ℕ → Purpose → ℕ → CreatePaymentInput
payment_input ticket user payee method amount rate purpose qr_ref =
    let commission = round_div (amount * rate) 100 in
    record {
      ticket_id = ticket;
      rider_uid = user;
      payee_id = payee;
      amount = amount;
      method = method;
      status = pending;
      qr_ref = if is_cash method then none else some qr_ref;
      commission_rate = some rate;
      commission_amount = some commission;
      payout_amount = some (sub_ℕ amount commission);
      purpose = purpose;
    }

-- What a request brings along: fresh names and the time.
pub record Fresh : Type 0 where
  pub id : ℕ
  pub qr_ref : ℕ
  pub now : ℕ

abbrev answer_created : ℕ → PaymentMethod → Created → World → Reply PaymentWithCheckout
answer_created ticket method created w =
    if created.reused
    then as_reused created.payment method w
    else if is_cash method
    then (
      stamp_ticket_payment ticket created.payment none w,
      ok (record { payment = created.payment; checkout = none; reused = false }),
    )
    else (
      stamp_ticket_payment ticket created.payment (some created.payment.id) w,
      ok (record { payment = created.payment; checkout = some created.payment.id; reused = false }),
    )

-- The end of `createPaymentForTicket`, once no other payment is in the way.
unfoldable pub open_payment :
    Fresh → Config → Ticket → PaymentMethod → ℕ → World → Reply PaymentWithCheckout
unfolding create_guarded resolve_payee_id payment_input as_reused stamp_ticket_payment
open_payment fresh config t method amount w = elim (resolve_payee_id t w.shops) [
  | err e ↦ (w, err e)
  | ok payee ↦
      let (after, created) =
        create_guarded fresh.id fresh.now
          (payment_input t.id t.user_id payee method amount (config.commission_rate t.ticket_type)
            balance fresh.qr_ref)
          w.store in
      answer_created t.id method created (record w { store = after })
]

module _ (cancel_order : Option ℕ → Option String) where
  abbrev after_switch :
      Fresh
      → Config
      → Ticket
      → PaymentMethod
      → ℕ
      → World × Result (Unit {0})
      → Reply PaymentWithCheckout
  after_switch fresh config t method amount (w, err e) = (w, err e)
  after_switch fresh config t method amount (w, ok u) = open_payment fresh config t method amount w

  abbrev switch_or_open :
      Fresh → Config → Ticket → PaymentMethod → ℕ → World → Reply PaymentWithCheckout
  switch_or_open fresh config t method amount w =
      elim (find_active (find_by_ticket t.id w.store.payments)) [
        | none ↦ open_payment fresh config t method amount w
        | some active ↦
            if same_method active.method method
            then as_reused active method w
            else after_switch fresh config t method amount
                (cancel_active_for_switch cancel_order active t.id w)
      ]

  abbrev deposit_first :
      Fresh → Config → Ticket → PaymentMethod → ℕ → World → Reply PaymentWithCheckout
  deposit_first fresh config t method amount w =
      elim (pending_deposit (find_by_ticket t.id w.store.payments)) [
        | none ↦ switch_or_open fresh config t method amount w
        | some p ↦
            if not (same_method p.method method)
            then (w, err (validation "Settle the deposit first"))
            else as_reused p method w
      ]

  -- `createPaymentForTicket` from the payments of the ticket on.
  unfoldable pub pay_amount :
      Fresh → Config → Ticket → PaymentMethod → ℕ → World → Reply PaymentWithCheckout
  unfolding find_active find_by_ticket as_reused cancel_active_for_switch open_payment
  pay_amount fresh config t method amount w =
      elim (settled_by amount (find_by_ticket t.id w.store.payments)) [
        | some p ↦ (w, ok (as_is p))
        | none ↦ deposit_first fresh config t method amount w
      ]

  -- `createPaymentForTicket`
  unfoldable pub create_payment_for_ticket :
      Fresh → Config → ℕ → ℕ → Option PaymentMethod → World → Reply PaymentWithCheckout
  unfolding check_payable pay_amount
  create_payment_for_ticket fresh config user ticket method w = elim (find_ticket ticket w) [
    | none ↦ (w, err (not_found "Dispatch ticket not found"))
    | some row ↦ elim (check_payable user row.ticket method config) [
      | err e ↦ (w, err e)
      | ok (m, amount) ↦ pay_amount fresh config row.ticket m amount w
    ]
  ]
