-- ===== src/Payment/Settle.antt =====
-- What happens to a payment after it is opened, in service/paymentService.ts: cash is confirmed,
-- SePay notifies, an admin refunds, a cancelled ticket takes its pending payments along.
pub mod Sound
pub mod Refunds
pub mod Tickets
pub mod Cancelled
use roadassistapp_be.Base.{
  ℕ, ◌+◌, ◌-◌, ◌==◌, Bool, true, false, not, ◌&&◌, ◌||◌, Option, none, some, List, [], ◌∷◌,
  if◌then◌else◌, find, or_else, leb, ltb, is_some,
}
use roadassistapp_be.Base.Result.{
  Result, ok, err, not_found, forbidden, validation, ◌>>=◌, ◌>>◌, throw_if, require,
}
use roadassistapp_be.PaymentStatus.{
  PaymentStatus, pending, held, confirmed, partial, refunded, cancelled, is_cash, is_pending,
  is_received, same_status,
}
use roadassistapp_be.Commission.{create_entry}
use roadassistapp_be.Payment.{
  Payment, balance, deposit, subscription, find_payment, find_by_ticket, find_by_qr_ref,
  update_status, update_status_when, clear_guard,
}
use roadassistapp_be.Payment.World.{
  World, Reply, RefundPolicy, partial_refunds, no_refunds, update_ticket, stamp_ticket_payment,
}
use roadassistapp_be.Payment.Deposit.{mark_deposit_confirmed}

abbrev pending_cash : Payment → Bool
pending_cash p = is_cash p.method && is_pending p.status

abbrev confirm_fields : ℕ → ℕ → Payment → Payment
confirm_fields by now p = record p { confirmed_by = some by; confirmed_at = some now }

-- The commission that the payee owes once cash is confirmed.
abbrev owe_commission : ℕ → ℕ → Payment → World → World
owe_commission entry now p w =
    let amount = or_else p.commission_amount 0 in
    if leb amount 0 then w else record w {
      commissions = create_entry entry now p.payee_id p.ticket_id p.id amount w.commissions;
    }

unfoldable pub confirm_now : ℕ → ℕ → ℕ → ℕ → Payment → World → Reply Payment
unfolding update_status_when create_entry stamp_ticket_payment
confirm_now user now entry ticket p w =
    let (after, found) =
      update_status_when p.id pending confirmed (confirm_fields user now) w.store in
    elim found [
      | none ↦ (record w { store = after }, err (not_found "Pending cash payment not found"))
      | some c ↦ (
        stamp_ticket_payment ticket c none
            (owe_commission entry now c (record w { store = after })),
        ok c,
      )
    ]

-- `confirmCash`; `caller` is whether the user is an admin, for a user that exists.
unfoldable pub confirm_cash : ℕ → ℕ → ℕ → Option Bool → ℕ → World → Reply Payment
unfolding find_by_ticket confirm_now
confirm_cash user now entry caller ticket w =
    elim (find pending_cash (find_by_ticket ticket w.store.payments)) [
      | none ↦ (w, err (not_found "Pending cash payment not found"))
      | some p ↦ elim caller [
        | none ↦ (w, err (not_found "User not found"))
        | some admin ↦
            if not admin && not (p.payee_id == user)
            then (w, err (forbidden "Only the payee confirms cash"))
            else confirm_now user now entry ticket p w
      ]
    ]

-- A notification of SePay, as read from its body.
pub record Ipn : Type 0 where
  -- There are no headers, or they carry the secret.
  pub authorized : Bool
  -- `notification_type` is missing or says that the order is paid.
  pub is_paid : Bool
  pub qr_ref : Option ℕ
  -- The rounded amount.
  pub amount : Option ℕ
  pub ipn_ref : Option ℕ

abbrev after_held : Payment → World → World
after_held p w = elim p.purpose [
  | subscription ↦ record w { activated = p.id ∷ w.activated }
  | deposit ↦ mark_deposit_confirmed p w
  | balance ↦ stamp_ticket_payment p.ticket_id p none w
]

unfoldable pub hold_now : ℕ → Payment → World → Reply (Option Payment)
unfolding update_status mark_deposit_confirmed stamp_ticket_payment
hold_now ipn_ref p w =
    let (after, found) =
      update_status p.id held (λ q. record q { ipn_ref = some ipn_ref }) w.store in
    elim found [
      | none ↦ (record w { store = after }, ok none)
      | some h ↦ (after_held h (record w { store = after }), ok (some h))
    ]

-- A payment that is held or confirmed is not held again; a subscription may still be due.
abbrev was_held : Payment → Bool
was_held p = same_status p.status held || same_status p.status confirmed

abbrev check_amount : Option ℕ → Payment → Result (Unit {0})
check_amount none p = err (validation "IPN amount missing")
check_amount (some n) p = require (n == p.amount) (validation "IPN amount mismatch")

abbrev receive : Ipn → ℕ → Payment → World → Reply (Option Payment)
receive ipn qr_ref p w =
    if was_held p
    then (record w { activated = p.id ∷ w.activated }, ok (some p))
    else if not (is_pending p.status)
    then (w, err (validation "Payment cannot be held"))
    else elim (check_amount ipn.amount p) [
      | err e ↦ (w, err e)
      | ok u ↦ hold_now (or_else ipn.ipn_ref qr_ref) p w
    ]

abbrev receive_found : Ipn → ℕ → Option Payment → World → Reply (Option Payment)
receive_found ipn qr_ref none w = (w, err (not_found "Payment not found"))
receive_found ipn qr_ref (some p) w = receive ipn qr_ref p w

-- `handleSepayIpn`
unfoldable pub handle_sepay_ipn : Ipn → World → Reply (Option Payment)
unfolding find_by_qr_ref hold_now
handle_sepay_ipn ipn w =
    if not ipn.authorized
    then (w, err (forbidden "Invalid SePay authorization"))
    else if not ipn.is_paid
    then (w, ok none)
    else elim ipn.qr_ref [
      | none ↦ (w, err (validation "IPN has no order reference"))
      | some ref ↦ receive_found ipn ref (find_by_qr_ref ref w.store) w
    ]

-- How much a refund request asks for.
pub data RefundAmount : Type 0 where
  whole : RefundAmount
  amount_of : ℕ → RefundAmount

abbrev pub is_no : RefundPolicy → Bool
is_no no_refunds = true
is_no _ = false

abbrev pub is_partial : RefundPolicy → Bool
is_partial partial_refunds = true
is_partial _ = false

abbrev pub already_refunded : Payment → ℕ
already_refunded p = or_else p.refund_amount 0

abbrev asked : RefundAmount → ℕ → Result ℕ
asked whole remaining = ok remaining
asked (amount_of n) remaining =
    throw_if (leb n 0 || ltb remaining n) (validation "Invalid refund amount") >> ok n

-- PARTIAL, or REFUNDED once all of it is refunded.
abbrev pub refund_status : Payment → ℕ → PaymentStatus
refund_status p total = if leb p.amount total then refunded else partial

-- The checks of `refund`: the total refunded after it.
unfoldable pub check_refund : RefundPolicy → RefundAmount → Payment → Result ℕ
check_refund policy request p =
    throw_if (is_no policy) (validation "Refunds are disabled")
    >> require (is_received p.status) (validation "Payment cannot be refunded")
    >> throw_if (leb p.amount (already_refunded p)) (validation "Payment already refunded")
    >> (asked request (p.amount - already_refunded p) >>= λ n.
        let total = already_refunded p + n in
        throw_if (is_partial policy && leb p.amount total) (validation "Full refunds are disabled")
        >> ok total)

abbrev pub refund_fields : ℕ → Option ℕ → ℕ → Payment → Payment
refund_fields total by now p = record p {
  refund_amount = some total;
  refunded_at = some now;
  refunded_by = by;
}

-- The ticket's stamp, and the guard once all is refunded.
unfoldable pub end_refund : Payment → ℕ → Payment → World → World
unfolding stamp_ticket_payment clear_guard
end_refund p total u w =
    let stamped = stamp_ticket_payment p.ticket_id u none w in
    if leb p.amount total
    then record stamped { store = clear_guard p.ticket_id p.id stamped.store }
    else stamped

unfoldable pub refund_now : ℕ → Option ℕ → ℕ → Payment → World → Reply (Option Payment)
unfolding update_status end_refund
refund_now total by now p w =
    let (after, found) =
      update_status p.id (refund_status p total) (refund_fields total by now) w.store in
    elim found [
      | none ↦ (record w { store = after }, ok none)
      | some u ↦ (end_refund p total u (record w { store = after }), ok (some u))
    ]

-- `refund`
unfoldable pub refund :
    RefundPolicy → RefundAmount → Option ℕ → ℕ → ℕ → World → Reply (Option Payment)
unfolding check_refund refund_now
refund policy request by now id w = elim (find_payment id w.store) [
  | none ↦ (w, err (not_found "Payment not found"))
  | some p ↦ elim (check_refund policy request p) [
    | err e ↦ (w, err e)
    | ok total ↦ refund_now total by now p w
  ]
]

abbrev cancel_stamped : ℕ → Payment → Option Payment → World → World
cancel_stamped ticket p none w = w
cancel_stamped ticket p (some u) w =
    let stamped = stamp_ticket_payment ticket u none w in
    record stamped { store = clear_guard ticket p.id stamped.store }

cancel_one : ℕ → Payment → World → World
unfolding update_status clear_guard stamp_ticket_payment
cancel_one ticket p w =
    let (after, found) = update_status p.id cancelled (λ q. q) w.store in
    cancel_stamped ticket p found (record w { store = after })

cancel_each : ℕ → List Payment → World → World
unfolding cancel_one
cancel_each ticket [] w = w
cancel_each ticket (p ∷ rows) w =
    if is_pending p.status
    then cancel_each ticket rows (cancel_one ticket p w)
    else cancel_each ticket rows w

abbrev has_pending : List Payment → Bool
has_pending rows = is_some (find (λ p. is_pending p.status) rows)

-- `cancelPendingPayments`
unfoldable pub cancel_pending_payments : ℕ → World → World
unfolding find_by_ticket cancel_each
cancel_pending_payments ticket w =
    let existing = find_by_ticket ticket w.store.payments in
    let after = cancel_each ticket existing w in
    if has_pending existing
    then update_ticket ticket (λ r. record r { checkout_url = none }) after
    else after
