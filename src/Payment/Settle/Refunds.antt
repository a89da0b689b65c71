-- ===== src/Payment/Settle/Refunds.antt =====
-- Which refunds are granted, and what they write.
use roadassistapp_be.Base.{
  ℕ, ◌+◌, ◌-◌, ◌≤◌, ◌<◌, ◌≡◌, ◌↔◌, ◌⊎◌, refl, sym, subst, true, false, ◌&&◌, Option, some, leb,
  Bool-cases, inl, inr, arith,
}
use roadassistapp_be.Base.Result.{ok}
use roadassistapp_be.Base.Store.{get_row-id, get_row-update_row}
use roadassistapp_be.PaymentStatus.{PaymentStatus, refunded, partial, is_received}
use roadassistapp_be.Payment.{
  Payment, Store, payment_id, find_payment, update, update_status, clear_guard,
}
use roadassistapp_be.Payment.World.{World, RefundPolicy}
use roadassistapp_be.Payment.Settle.{
  RefundAmount, whole, amount_of, is_no, is_partial, already_refunded, check_refund, refund_status,
  refund_fields, end_refund, refund_now, refund,
}
use roadassistapp_be.Payment.Settle.Sound.{end_refund_store}

-- What a request asks for, of what is left of the payment.
abbrev pub requested : RefundAmount → Payment → ℕ
requested whole p = p.amount - already_refunded p
requested (amount_of n) p = n

-- The rule for refunds: refunds are on, the payment was received, something is left of it and is
-- asked for, no more than is left; and not all of it where only partial refunds are on.
abbrev pub Refundable : RefundPolicy → RefundAmount → Payment → ℕ → Type 0
Refundable policy request p total =
    (is_no policy ≡ false)
    × (is_received p.status ≡ true)
    × (total ≡ already_refunded p + requested request p)
    × (already_refunded p < total)
    × (total ≤ p.amount)
    × ((is_partial policy && leb p.amount total) ≡ false)

-- A refund is granted exactly by the rule for refunds, with the total refunded after it.
pub check_refund_iff :
    (policy : RefundPolicy) (request : RefundAmount) (p : Payment) (total : ℕ)
    → (check_refund policy request p ≡ ok total) ↔ Refundable policy request p total
unfolding check_refund
check_refund_iff policy whole p total = ground arith
check_refund_iff policy (amount_of n) p total = ground arith

-- The payment after a refund: the total, the time and who refunded are written; it is REFUNDED once
-- the total is all of the amount, and PARTIAL while it is less; nothing else changes.
pub record IsRefunded (total : ℕ) (by : Option ℕ) (now : ℕ) (p q : Payment) : Type 0 where
  pub by_total :
      ((total ≡ p.amount) × (q.status ≡ refunded)) ⊎ ((total < p.amount) × (q.status ≡ partial))
  pub written : q ≡ record p {
    status = q.status;
    refund_amount = some total;
    refunded_at = some now;
    refunded_by = by;
  }

-- The payment as the code writes it.
abbrev refunded_payment : ℕ → Option ℕ → ℕ → Payment → Payment
refunded_payment total by now p = record (refund_fields total by now p) {
  status = refund_status p total;
}

refunded_payment-IsRefunded :
    (total : ℕ) (by : Option ℕ) (now : ℕ) (p : Payment)
    → total ≤ p.amount
    → IsRefunded total by now p (refunded_payment total by now p)
refunded_payment-IsRefunded total by now p h = record { by_total = ground arith; written = refl }

clear_guard_payments : (t id : ℕ) (s : Store) → (clear_guard t id s).payments ≡ s.payments
unfolding clear_guard
clear_guard_payments t id s = ground arith

end_refund_payments :
    (p : Payment) (total : ℕ) (u : Payment) (w : World)
    → (end_refund p total u w).store.payments ≡ w.store.payments
end_refund_payments p total u w =
    rw (end_refund_store p total u w) (elim (Bool-cases (leb p.amount total)) [
      | inl e ↦ rw e (clear_guard_payments p.ticket_id p.id w.store)
      | inr d ↦ rw d refl
    ])

-- `updateStatus` returns the payment that it has written.
update_status_found :
    (id : ℕ) (status : PaymentStatus) (fields : Payment → Payment) (s : Store) {p : Payment}
    → ((q : Payment) → (fields q).id ≡ q.id)
    → find_payment id s ≡ some p
    → (update_status id status fields s).1 ≡ some (record (fields p) { status = status })
unfolding update_status update
update_status_found id status fields s k f =
    get_row-update_row payment_id id (λ q. record (fields q) { status = status }) s.payments k f

refund_now_writes :
    (total : ℕ) (by : Option ℕ) (now : ℕ) (p : Payment) (w : World)
    → find_payment p.id w.store ≡ some p
    → (find_payment p.id (refund_now total by now p w).0.store
        ≡ some (refunded_payment total by now p))
      × ((refund_now total by now p w).1 ≡ ok (some (refunded_payment total by now p)))
unfolding refund_now
refund_now_writes total by now p w f =
    let after = update_status p.id (refund_status p total) (refund_fields total by now) w.store in
    let u = refunded_payment total by now p in
    let n : after.1 ≡ some u =
      update_status_found p.id (refund_status p total) (refund_fields total by now) w.store
        (λ q. refl) f in
    rw (n, refund_now, end_refund_payments p total u (record w { store = after.0 })) (n, refl)

-- What a granted refund leaves, as the code writes it.
refund_leaves :
    (policy : RefundPolicy) (request : RefundAmount) (by : Option ℕ) (now id : ℕ) (w : World)
    {p : Payment} {total : ℕ}
    → find_payment id w.store ≡ some p
    → Refundable policy request p total
    → (find_payment id (refund policy request by now id w).0.store
        ≡ some (refunded_payment total by now p))
      × ((refund policy request by now id w).1 ≡ ok (some (refunded_payment total by now p)))
unfolding refund
refund_leaves policy request by now id w {p} {total} f rule =
    let granted = (check_refund_iff policy request p total).1 rule in
    let i : p.id ≡ id = get_row-id payment_id id w.store.payments f in
    rw (f, granted, refund)
      (subst
        (λ x.
          (find_payment x (refund_now total by now p w).0.store
            ≡ some (refunded_payment total by now p))
          × ((refund_now total by now p w).1 ≡ ok (some (refunded_payment total by now p))))
        i
        (refund_now_writes total by now p w
          (subst (λ x. find_payment x w.store ≡ some p) (sym i) f)))

-- A refund that the rule grants writes the total, the time and who refunded on the payment, makes it
-- REFUNDED if the total is all of the amount and PARTIAL if it is less, changes nothing else of the
-- payment, and answers with the payment as it is stored.
pub refund_writes :
    (policy : RefundPolicy) (request : RefundAmount) (by : Option ℕ) (now id : ℕ) (w : World)
    {p : Payment} {total : ℕ}
    → find_payment id w.store ≡ some p
    → Refundable policy request p total
    → (q : Payment) × IsRefunded total by now p q
      × (find_payment id (refund policy request by now id w).0.store ≡ some q)
      × ((refund policy request by now id w).1 ≡ ok (some q))
refund_writes policy request by now id w {p} {total} f rule =
    let (stored, answered) = refund_leaves policy request by now id w f rule in
    (
      refunded_payment total by now p,
      refunded_payment-IsRefunded total by now p (omega arith),
      stored,
      answered,
    )
