-- ===== src/Refund.antt =====
-- service/refundService.ts and repository/refundRepository.ts: refunds are requested, decided, sent
-- and confirmed. The bank details and the texts that a request only stores are left out. The rows
-- are kept latest first, as `findByPaymentId` sorts them.
pub mod Laws
pub mod Steps
pub mod Confirm
use roadassistapp_be.Base.{
  ℕ, ◌-◌, Bool, true, false, not, ◌&&◌, ◌||◌, Option, none, some, List, ◌∷◌, ltb, leb, ◌==◌,
  if◌then◌else◌, or_else, find,
}
use roadassistapp_be.Base.Result.{
  Result, ◌>>◌, throw_if, require, validation, not_found, forbidden, ok, err,
}
use roadassistapp_be.Base.Store.{get_row, update_row}
use roadassistapp_be.PaymentStatus.{is_received}
use roadassistapp_be.Payment.World.{RefundPolicy, World}
use roadassistapp_be.Payment.{Payment, find_payment}
use roadassistapp_be.Commission.{reverse_for_refund}
use roadassistapp_be.Payment.Settle.{is_no, is_partial, already_refunded, refund, amount_of}

-- REFUND_STATUS
pub data RefundStatus : Type 0 where
  asked approved sent paid_back turned_down failed : RefundStatus

-- `OPEN_STATUSES`
abbrev pub is_open : RefundStatus → Bool
is_open asked = true
is_open approved = true
is_open sent = true
is_open _ = false

abbrev pub is_asked : RefundStatus → Bool
is_asked asked = true
is_asked _ = false

abbrev is_approved : RefundStatus → Bool
is_approved approved = true
is_approved _ = false

-- APPROVED or SENT.
abbrev pub is_payable : RefundStatus → Bool
is_payable approved = true
is_payable sent = true
is_payable _ = false

pub record RefundRequest : Type 0 where
  pub id : ℕ
  pub payment_id : ℕ
  pub ticket_id : ℕ
  pub rider_uid : ℕ
  pub payee_id : ℕ
  pub amount : ℕ
  pub original_amount : ℕ
  pub status : RefundStatus
  pub automatic : Bool
  pub requested_by : ℕ
  pub requested_at : ℕ
  pub decided_at : Option ℕ
  pub decided_by : Option ℕ
  pub sent_at : Option ℕ
  pub sent_by : Option ℕ
  pub transfer_ref : Option ℕ
  pub confirmed_at : Option ℕ
  pub confirmed_by : Option ℕ

abbrev pub request_id : RefundRequest → ℕ
request_id r = r.id

pub record RefundWorld : Type 0 where
  pub world : World
  pub refunds : List RefundRequest

abbrev pub find_request : ℕ → RefundWorld → Option RefundRequest
find_request id w = get_row request_id id w.refunds

abbrev is_open_for : ℕ → RefundRequest → Bool
is_open_for payment r = r.payment_id == payment && is_open r.status

-- `findOpenByPaymentId`
unfoldable pub find_open_by_payment : ℕ → List RefundRequest → Option RefundRequest
find_open_by_payment payment rows = find (is_open_for payment) rows

-- `create`
unfoldable pub new_request : ℕ → ℕ → ℕ → Bool → Payment → ℕ → RefundRequest
new_request id now by automatic p amount = record {
  id = id;
  payment_id = p.id;
  ticket_id = p.ticket_id;
  rider_uid = p.rider_uid;
  payee_id = p.payee_id;
  amount = amount;
  original_amount = p.amount;
  status = asked;
  automatic = automatic;
  requested_by = by;
  requested_at = now;
  decided_at = none;
  decided_by = none;
  sent_at = none;
  sent_by = none;
  transfer_ref = none;
  confirmed_at = none;
  confirmed_by = none;
}

-- What is left of a payment.
abbrev pub remaining_of : Payment → ℕ
remaining_of p = p.amount - already_refunded p

-- The checks of `requestRefund`: the amount that is asked for. `caller` is whether the user is an
-- admin, for a user that exists.
unfoldable pub check_request : RefundPolicy → ℕ → Option Bool → Option ℕ → Payment → Result ℕ
check_request policy by none amount p = err (not_found "User not found")
check_request policy by (some admin) amount p =
    throw_if (not admin && not (p.rider_uid == by)) (forbidden "Only the rider requests a refund")
    >> require (is_received p.status) (validation "Payment cannot be refunded")
    >> throw_if (leb p.amount (already_refunded p)) (validation "Payment already refunded")
    >> throw_if
        (leb (or_else amount (remaining_of p)) 0
          || ltb (remaining_of p) (or_else amount (remaining_of p)))
        (validation "Invalid refund amount")
    >> throw_if (is_no policy) (validation "Refunds are disabled")
    >> throw_if (is_partial policy && leb (remaining_of p) (or_else amount (remaining_of p)))
        (validation "Full refunds are disabled")
    >> ok (or_else amount (remaining_of p))

abbrev pub open_request :
    ℕ → ℕ → ℕ → Bool → Payment → ℕ → RefundWorld → RefundWorld × Result RefundRequest
open_request id now by automatic p amount w = elim (find_open_by_payment p.id w.refunds) [
  | some r ↦ (w, ok r)
  | none ↦
      let r = new_request id now by automatic p amount in
      (record w { refunds = r ∷ w.refunds }, ok r)
]

-- `requestRefund`
unfoldable pub request_refund :
    RefundPolicy
    → ℕ
    → ℕ
    → ℕ
    → ℕ
    → Option Bool
    → Option ℕ
    → Bool
    → RefundWorld
    → RefundWorld × Result RefundRequest
unfolding find_open_by_payment new_request check_request
request_refund policy id now payment by caller amount automatic w =
    elim (find_payment payment w.world.store) [
      | none ↦ (w, err (not_found "Payment not found"))
      | some p ↦ elim (check_request policy by caller amount p) [
        | err e ↦ (w, err e)
        | ok n ↦ open_request id now by automatic p n w
      ]
    ]

-- `update`, and the request read again, or the one from before it.
unfoldable pub write_request :
    RefundRequest
    → (RefundRequest → RefundRequest)
    → RefundWorld
    → RefundWorld × Result RefundRequest
write_request r f w =
    let after = record w { refunds = update_row request_id r.id f w.refunds } in
    (after, ok (or_else (find_request r.id after) r))

abbrev decide_fields : ℕ → ℕ → Bool → RefundRequest → RefundRequest
decide_fields admin now approve r = record r {
  status = if approve then approved else turned_down;
  decided_at = some now;
  decided_by = some admin;
}

-- `decideRefund`
unfoldable pub decide_refund : ℕ → ℕ → ℕ → Bool → RefundWorld → RefundWorld × Result RefundRequest
unfolding write_request
decide_refund admin now id approve w = elim (find_request id w) [
  | none ↦ (w, err (not_found "Refund request not found"))
  | some r ↦
      if not (is_asked r.status)
      then (w, err (validation "Refund request is already decided"))
      else write_request r (decide_fields admin now approve) w
]

abbrev sent_fields : ℕ → ℕ → Option ℕ → RefundRequest → RefundRequest
sent_fields admin now ref r = record r {
  status = sent;
  sent_at = some now;
  sent_by = some admin;
  transfer_ref = ref;
}

-- `markRefundSent`
unfoldable pub mark_refund_sent :
    ℕ → ℕ → ℕ → Option ℕ → RefundWorld → RefundWorld × Result RefundRequest
unfolding write_request
mark_refund_sent admin now id ref w = elim (find_request id w) [
  | none ↦ (w, err (not_found "Refund request not found"))
  | some r ↦
      if not (is_approved r.status)
      then (w, err (validation "Refund must be approved before sending"))
      else write_request r (sent_fields admin now ref) w
]

abbrev pub confirmed_fields : ℕ → ℕ → Option ℕ → RefundRequest → RefundRequest
confirmed_fields admin now ref r = record r {
  status = paid_back;
  confirmed_at = some now;
  confirmed_by = some admin;
  transfer_ref = elim ref [ none ↦ r.transfer_ref | some t ↦ some t ];
}

-- The commission is given back, and the request closed.
unfoldable pub close_confirmed :
    ℕ → ℕ → Option ℕ → RefundRequest → Payment → RefundWorld → RefundWorld × Result RefundRequest
unfolding write_request reverse_for_refund
close_confirmed admin now ref r p w =
    let ledger = (reverse_for_refund r.payment_id r.amount p.amount w.world.commissions).0 in
    write_request r (confirmed_fields admin now ref)
      (record w { world = record (w.world) { commissions = ledger } })

abbrev after_refund :
    ℕ
    → ℕ
    → Option ℕ
    → RefundRequest
    → Payment
    → List RefundRequest
    → World × Result (Option Payment)
    → RefundWorld × Result RefundRequest
after_refund admin now ref r p rows (world, err e) =
    (record { world = world; refunds = rows }, err e)
after_refund admin now ref r p rows (world, ok u) =
    close_confirmed admin now ref r p (record { world = world; refunds = rows })

-- `confirmRefund`
unfoldable pub confirm_refund :
    RefundPolicy → ℕ → ℕ → ℕ → Option ℕ → RefundWorld → RefundWorld × Result RefundRequest
unfolding close_confirmed refund
confirm_refund policy admin now id ref w = elim (find_request id w) [
  | none ↦ (w, err (not_found "Refund request not found"))
  | some r ↦
      if not (is_payable r.status)
      then (w, err (validation "Refund is not ready to confirm"))
      else elim (find_payment r.payment_id w.world.store) [
        | none ↦ (w, err (not_found "Payment not found"))
        | some p ↦
            after_refund admin now ref r p w.refunds
              (refund policy (amount_of r.amount) (some admin) now r.payment_id w.world)
      ]
]

abbrev failed_fields : ℕ → ℕ → RefundRequest → RefundRequest
failed_fields admin now r = record r {
  status = failed;
  decided_at = some now;
  decided_by = some admin;
}

-- `failRefund`
unfoldable pub fail_refund : ℕ → ℕ → ℕ → RefundWorld → RefundWorld × Result RefundRequest
unfolding write_request
fail_refund admin now id w = elim (find_request id w) [
  | none ↦ (w, err (not_found "Refund request not found"))
  | some r ↦
      if not (is_payable r.status)
      then (w, err (validation "Refund cannot be failed"))
      else write_request r (failed_fields admin now) w
]
