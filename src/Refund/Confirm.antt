-- ===== src/Refund/Confirm.antt =====
-- What the confirmation of a refund does to the request, the payment and the commission.
use roadassistapp_be.Base.{
  ℕ, ◌≡◌, ◌⊎◌, refl, inl, inr, true, false, Bool-cases, Option, none, some, List, arith,
  Option-cases,
}
use roadassistapp_be.Base.Result.{Result, AppError, Result-cases, ok, err}
use roadassistapp_be.Base.Store.{get_row, update_row, get_row-update_row, IsKeyed}
use roadassistapp_be.Refund.{
  is_payable, paid_back, RefundRequest, request_id, RefundWorld, find_request, write_request,
  confirmed_fields, close_confirmed, after_refund, confirm_refund,
}
use roadassistapp_be.Payment.World.{RefundPolicy, World, stamp_ticket_payment}
use roadassistapp_be.Payment.{Payment, find_payment, update_status}
use roadassistapp_be.Payment.Settle.{
  RefundAmount, refund_status, check_refund, refund_fields, end_refund, refund_now, refund,
  amount_of,
}
use roadassistapp_be.Payment.Settle.Refunds.{
  Refundable, check_refund_iff, IsRefunded, refund_writes,
}
use roadassistapp_be.Commission.{CommissionEntry, entry_id, find_by_payment}
use roadassistapp_be.Commission.Reversal.{GivesBack, reverse_for_refund-GivesBack}
use roadassistapp_be.Refund.Steps.{found_request}

stamp_commissions :
    (t : ℕ) (p : Payment) (c : Option ℕ) (w : World)
    → (stamp_ticket_payment t p c w).commissions ≡ w.commissions
unfolding stamp_ticket_payment
stamp_commissions t p c w = ground arith

end_refund_commissions :
    (p : Payment) (total : ℕ) (u : Payment) (w : World)
    → (end_refund p total u w).commissions ≡ w.commissions
unfolding end_refund
end_refund_commissions p total u w = ground (arith, stamp_commissions p.ticket_id u none w)

refund_now_commissions :
    (total : ℕ) (by : Option ℕ) (now : ℕ) (p : Payment) (w : World)
    → (refund_now total by now p w).0.commissions ≡ w.commissions
unfolding refund_now
refund_now_commissions total by now p w =
    let after = update_status p.id (refund_status p total) (refund_fields total by now) w.store in
    elim (Option-cases after.1) [
      | inl n ↦ rw (n, refund_now) refl
      | inr (u, n) ↦
          rw (n, refund_now) (end_refund_commissions p total u (record w { store = after.0 }))
    ]

-- A refund leaves the ledger.
refund_commissions :
    (policy : RefundPolicy) (request : RefundAmount) (by : Option ℕ) (now id : ℕ) (w : World)
    → (refund policy request by now id w).0.commissions ≡ w.commissions
unfolding refund
refund_commissions policy request by now id w = elim (Option-cases (find_payment id w.store)) [
  | inl n ↦ rw (n, refund) refl
  | inr (p, n) ↦ elim (Result-cases (check_refund policy request p)) [
    | inr (e, r) ↦ rw (n, r, refund) refl
    | inl (total, r) ↦ rw (n, r, refund) (refund_now_commissions total by now p w)
  ]
]

after_refund_ok :
    (admin now : ℕ) (ref : Option ℕ) (r : RefundRequest) (p : Payment) (rows : List RefundRequest)
    (reply : World × Result (Option Payment)) {u : Option Payment}
    → reply.1 ≡ ok u
    → after_refund admin now ref r p rows reply
      ≡ close_confirmed admin now ref r p (record { world = reply.0; refunds = rows })
after_refund_ok admin now ref r p rows (world, err e) h = cc h
after_refund_ok admin now ref r p rows (world, ok u) h = refl

-- The request after its confirmation: a transfer that is named replaces the one on file.
abbrev pub transfer_after : Option ℕ → Option ℕ → Option ℕ
transfer_after none on_file = on_file
transfer_after (some t) on_file = some t

confirmed_fields_lem :
    (admin now : ℕ) (ref : Option ℕ) (r : RefundRequest)
    → confirmed_fields admin now ref r ≡ record r {
      status = paid_back;
      confirmed_at = some now;
      confirmed_by = some admin;
      transfer_ref = transfer_after ref r.transfer_ref;
    }
confirmed_fields_lem admin now none r = refl
confirmed_fields_lem admin now (some t) r = refl

-- A confirmation closes the request as paid back, with the time, the admin and the transfer, refunds
-- the payment, and gives back commission on the ledger.
abbrev pub Closes :
    ℕ
    → ℕ
    → ℕ
    → Option ℕ
    → RefundRequest
    → Payment
    → List CommissionEntry
    → RefundWorld × Result RefundRequest
    → Type 0
Closes total admin now ref r p ledger (after, answer) =
    (closed : RefundRequest) × (q : Payment) × (closed ≡ record r {
      status = paid_back;
      confirmed_at = some now;
      confirmed_by = some admin;
      transfer_ref = transfer_after ref r.transfer_ref;
    })
    × (find_request r.id after ≡ some closed)
    × (answer ≡ ok closed)
    × IsRefunded total (some admin) now p q
    × (find_payment r.payment_id after.world.store ≡ some q)
    × GivesBack r.amount p.amount (find_by_payment r.payment_id ledger) ledger
        after.world.commissions

confirm_refund_writes :
    (policy : RefundPolicy) (admin now id : ℕ) (ref : Option ℕ) (w : RefundWorld)
    {r : RefundRequest} {p : Payment} {total : ℕ}
    → find_request id w ≡ some r
    → is_payable r.status ≡ true
    → find_payment r.payment_id w.world.store ≡ some p
    → Refundable policy (amount_of r.amount) p total
    → IsKeyed entry_id w.world.commissions
    → Closes total admin now ref r p w.world.commissions (confirm_refund policy admin now id ref w)
unfolding confirm_refund close_confirmed write_request
confirm_refund_writes policy admin now id ref w {r} {p} {total} f payable g rule keyed =
    let (q, fits, stored, answered) =
      refund_writes policy (amount_of r.amount) (some admin) now r.payment_id w.world g rule in
    let reply = refund policy (amount_of r.amount) (some admin) now r.payment_id w.world in
    let kept : reply.0.commissions ≡ w.world.commissions =
      refund_commissions policy (amount_of r.amount) (some admin) now r.payment_id w.world in
    let written : get_row request_id r.id
          (update_row request_id r.id (confirmed_fields admin now ref) w.refunds)
        ≡ some (confirmed_fields admin now ref r) =
      get_row-update_row request_id r.id (confirmed_fields admin now ref) w.refunds (λ q. refl)
        (found_request id w f) in
    let back =
      reverse_for_refund-GivesBack r.payment_id r.amount p.amount w.world.commissions (omega arith)
        (omega arith) keyed in
    rw
      (
        f,
        payable,
        g,
        confirm_refund,
        after_refund_ok admin now ref r p w.refunds reply answered,
        close_confirmed,
        written,
        kept,
      )
      (
        confirmed_fields admin now ref r,
        q,
        confirmed_fields_lem admin now ref r,
        refl,
        refl,
        fits,
        stored,
        back,
      )

-- A refusal leaves the state and answers with an error.
abbrev pub Refuses : RefundWorld → RefundWorld × Result RefundRequest → Type 0
Refuses w (after, answer) = (after ≡ w) × ((e : AppError) × (answer ≡ err e))

not_payable-Refuses :
    (policy : RefundPolicy) (admin now id : ℕ) (ref : Option ℕ) (w : RefundWorld)
    {r : RefundRequest}
    → find_request id w ≡ some r
    → is_payable r.status ≡ false
    → Refuses w (confirm_refund policy admin now id ref w)
unfolding confirm_refund
not_payable-Refuses policy admin now id ref w f closed =
    rw (f, closed, confirm_refund) (refl, (_, refl))

refund_refused :
    (policy : RefundPolicy) (request : RefundAmount) (by : Option ℕ) (now id : ℕ) (w : World)
    {p : Payment} {e : AppError}
    → find_payment id w.store ≡ some p
    → check_refund policy request p ≡ err e
    → refund policy request by now id w ≡ (w, err e)
unfolding refund
refund_refused policy request by now id w f refused = rw (f, refused, refund) refl

not_granted-Refuses :
    (policy : RefundPolicy) (admin now id : ℕ) (ref : Option ℕ) (w : RefundWorld)
    {r : RefundRequest} {p : Payment} {e : AppError}
    → find_request id w ≡ some r
    → is_payable r.status ≡ true
    → find_payment r.payment_id w.world.store ≡ some p
    → check_refund policy (amount_of r.amount) p ≡ err e
    → Refuses w (confirm_refund policy admin now id ref w)
unfolding confirm_refund
not_granted-Refuses policy admin now id ref w {r} {e} f payable g refused =
    let stays =
      refund_refused policy (amount_of r.amount) (some admin) now r.payment_id w.world g refused in
    rw (f, payable, g, confirm_refund, stays) (refl, (e, refl))

-- The confirmation of a stored request for a stored payment, while the ids of the ledger are
-- distinct, goes one of two ways. If the request is approved or sent and the rule for refunds
-- grants its amount, the request is closed as paid back, with the time, the admin and the transfer;
-- the payment is REFUNDED once all of it is refunded and PARTIAL before; and on the payment's entry
-- of the ledger the part of the commission that is refunded is given back, rounded, and no more than
-- is open. If not, an error is answered and nothing changes.
pub confirm_refund_outcome :
    (policy : RefundPolicy) (admin now id : ℕ) (ref : Option ℕ) (w : RefundWorld)
    {r : RefundRequest} {p : Payment}
    → find_request id w ≡ some r
    → find_payment r.payment_id w.world.store ≡ some p
    → IsKeyed entry_id w.world.commissions
    → ((total : ℕ) × (is_payable r.status ≡ true)
        × Refundable policy (amount_of r.amount) p total
        × Closes total admin now ref r p w.world.commissions
            (confirm_refund policy admin now id ref w))
      ⊎ (((is_payable r.status ≡ false)
            ⊎ (¬ ((total : ℕ) × Refundable policy (amount_of r.amount) p total)))
          × Refuses w (confirm_refund policy admin now id ref w))
confirm_refund_outcome policy admin now id ref w {r} {p} f g keyed =
    elim (Bool-cases (is_payable r.status)) [
      | inr closed ↦ inr (inl closed, not_payable-Refuses policy admin now id ref w f closed)
      | inl payable ↦ elim (Result-cases (check_refund policy (amount_of r.amount) p)) [
        | inr (e, refused) ↦
            let never : ¬ ((total : ℕ) × Refundable policy (amount_of r.amount) p total) =
              λ (total, rule).
                cc (refused, (check_refund_iff policy (amount_of r.amount) p total).1 rule) in
            inr (inr never, not_granted-Refuses policy admin now id ref w f payable g refused)
        | inl (total, granted) ↦
            let rule = (check_refund_iff policy (amount_of r.amount) p total).0 granted in
            inl (
              total,
              payable,
              rule,
              confirm_refund_writes policy admin now id ref w f payable g rule keyed,
            )
      ]
    ]
