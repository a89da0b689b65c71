-- ===== src/Payment/Settle/Sound.antt =====
-- Confirming, holding, refunding and cancelling payments keeps the guards right.
use roadassistapp_be.Base.{
  ℕ, ◌==◌, ◌≡◌, refl, sym, subst, Bool, true, not, ◌&&◌, Option, none, some, List, [], ◌∷◌,
  if◌then◌else◌, leb, find, find-passes, Bool-cases, Option-cases, inl, inr, arith, find-All,
  or_else,
}
use roadassistapp_be.Base.Result.{ok, Result-cases}
use roadassistapp_be.Base.Store.{get_row, get_row-id, IsKeyed-All}
use roadassistapp_be.PaymentStatus.{
  PaymentStatus, pending, held, confirmed, partial, refunded, cancelled, is_active, is_pending,
}
use roadassistapp_be.Payment.{
  Payment, payment_id, find_payment, find_by_ticket, find_by_qr_ref, has_ref, update_status,
  update_status_when, clear_guard, was,
}
use roadassistapp_be.Payment.Guarded.{
  IsSound, accounts, is_accounted, of_row, cancel_fits, write_status-IsSound, update_status-IsSound,
  close_payment-IsSound, found_by_ticket,
}
use roadassistapp_be.Payment.World.{World, RefundPolicy}
use roadassistapp_be.Payment.Collect.Sound.{stamp_store}
use roadassistapp_be.Payment.Deposit.Sound.{mark_deposit_confirmed_store}
use roadassistapp_be.Payment.Settle.{
  whole, amount_of, pending_cash, confirm_fields, owe_commission, confirm_now, confirm_cash, Ipn,
  after_held, hold_now, receive, receive_found, was_held, check_amount, handle_sepay_ipn,
  RefundAmount, check_refund, end_refund, refund_now, refund, refund_fields, refund_status,
  cancel_one, cancel_each, has_pending, cancel_pending_payments,
}

owe_commission_store :
    (entry now : ℕ) (p : Payment) (w : World) → (owe_commission entry now p w).store ≡ w.store
owe_commission_store entry now p w = ground arith

-- A payment that is pending, or received, is active.
pending_active : (s : PaymentStatus) → is_pending s ≡ true → is_active s ≡ true
pending_active s h = ground arith

-- What can be refunded is active.
refunded_active :
    (policy : RefundPolicy) (request : RefundAmount) (p : Payment) {total : ℕ}
    → check_refund policy request p ≡ ok total
    → is_active p.status ≡ true
unfolding check_refund
refunded_active policy request p h = ground arith

-- Nothing is refunded of a pending payment.
pending_unrefunded :
    (p : Payment)
    → is_pending p.status ≡ true
    → is_accounted p ≡ true
    → (or_else p.refund_amount 0 == 0) ≡ true
unfolding accounts
pending_unrefunded p e a = ground arith

-- The total after a refund fits the status after it.
refund_fits :
    (policy : RefundPolicy) (request : RefundAmount) (p : Payment) {total : ℕ}
    → check_refund policy request p ≡ ok total
    → accounts (refund_status p total) total p.amount ≡ true
unfolding check_refund accounts
refund_fits policy whole p h = ground arith
refund_fits policy (amount_of n) p h = ground arith

confirm_now-IsSound :
    (user now entry t : ℕ) (p : Payment) (w : World)
    → find_payment p.id w.store ≡ some p
    → is_pending p.status ≡ true
    → IsSound w.store
    → IsSound (confirm_now user now entry t p w).0.store
unfolding confirm_now update_status_when accounts
confirm_now-IsSound user now entry t p w f e h =
    let write = confirm_fields user now in
    let after = update_status_when p.id pending confirmed write w.store in
    let pend : was pending (find_payment p.id w.store) ≡ true = rw f (ground (arith, e)) in
    let kept : IsSound after.0 =
      rw (pend, update_status_when)
        (update_status-IsSound p.id confirmed write w.store (λ q. refl) (λ q. refl) (λ q. refl) f
          (pending_active p.status e) (pending_unrefunded p e) h) in
    elim (Option-cases after.1) [
      | inl n ↦ rw (n, confirm_now) kept
      | inr (c, n) ↦
          let owed = owe_commission entry now c (record w { store = after.0 }) in
          rw
            (
              n,
              confirm_now,
              stamp_store t c none owed,
              owe_commission_store entry now c (record w { store = after.0 }),
            )
            kept
    ]

after_held_store : (p : Payment) (w : World) → (after_held p w).store ≡ w.store
after_held_store p w =
    ground (arith, mark_deposit_confirmed_store p w, stamp_store p.ticket_id p none w)

hold_now-IsSound :
    (ref : ℕ) (p : Payment) (w : World)
    → find_payment p.id w.store ≡ some p
    → is_pending p.status ≡ true
    → IsSound w.store
    → IsSound (hold_now ref p w).0.store
unfolding hold_now accounts
hold_now-IsSound ref p w f e h =
    let write = λ (q : Payment). record q { ipn_ref = some ref } in
    let after = update_status p.id held write w.store in
    let kept =
      update_status-IsSound p.id held write w.store (λ q. refl) (λ q. refl) (λ q. refl) f
        (pending_active p.status e) (pending_unrefunded p e) h in
    elim (Option-cases after.1) [
      | inl n ↦ rw (n, hold_now) kept
      | inr (u, n) ↦ rw (n, hold_now, after_held_store u (record w { store = after.0 })) kept
    ]

pub end_refund_store :
    (p : Payment) (total : ℕ) (u : Payment) (w : World)
    → (end_refund p total u w).store
      ≡ (if leb p.amount total then clear_guard p.ticket_id p.id w.store else w.store)
unfolding end_refund
end_refund_store p total u w = elim (Bool-cases (leb p.amount total)) [
  | inl e ↦ rw (e, end_refund, stamp_store p.ticket_id u none w) refl
  | inr d ↦ rw (d, end_refund, stamp_store p.ticket_id u none w) refl
]

refund_now-IsSound :
    (total : ℕ) (by : Option ℕ) (now : ℕ) (p : Payment) (w : World)
    → find_payment p.id w.store ≡ some p
    → is_active p.status ≡ true
    → accounts (refund_status p total) total p.amount ≡ true
    → IsSound w.store
    → IsSound (refund_now total by now p w).0.store
unfolding refund_now
refund_now-IsSound total by now p w f a fits h =
    let status = refund_status p total in
    let after = update_status p.id status (refund_fields total by now) w.store in
    let kept =
      update_status-IsSound p.id status (refund_fields total by now) w.store (λ q. refl) (λ q. refl)
        (λ q. refl) f (ground (arith, a)) (λ k. fits) h in
    elim (Option-cases after.1) [
      | inl n ↦ rw (n, refund_now) kept
      | inr (u, n) ↦
          rw (n, refund_now, end_refund_store p total u (record w { store = after.0 }))
            (elim (Bool-cases (leb p.amount total)) [
              | inl e ↦ rw e (
                  close_payment-IsSound p.ticket_id p.id refunded (refund_fields total by now)
                    w.store (λ q. refl) (λ q. refl) (λ q. refl) refl
                    (of_row p.id w.store
                      (λ q.
                        is_accounted q ≡ true
                        → is_accounted (record (refund_fields total by now q) { status = refunded })
                          ≡ true)
                      f
                      (λ k.
                        let all : accounts refunded total p.amount ≡ true = rw e at fits in all))
                    h)
              | inr d ↦ rw d (
                  update_status-IsSound p.id partial (refund_fields total by now) w.store
                    (λ q. refl) (λ q. refl) (λ q. refl) f (ground (arith, a))
                    (λ k. let part : accounts partial total p.amount ≡ true = rw d at fits in part)
                    h)
            ])
    ]

pub confirm_cash-IsSound :
    (user now entry : ℕ) (caller : Option Bool) (t : ℕ) (w : World)
    → IsSound w.store
    → IsSound (confirm_cash user now entry caller t w).0.store
unfolding confirm_cash
confirm_cash-IsSound user now entry none t w h =
    elim (Option-cases (find pending_cash (find_by_ticket t w.store.payments))) [
      | inl n ↦ rw (n, confirm_cash) h
      | inr (p, n) ↦ rw (n, confirm_cash) h
    ]
confirm_cash-IsSound user now entry (some admin) t w h =
    elim (Option-cases (find pending_cash (find_by_ticket t w.store.payments))) [
      | inl n ↦ rw (n, confirm_cash) h
      | inr (p, n) ↦
          let passes = find-passes pending_cash (find_by_ticket t w.store.payments) n in
          let done =
            confirm_now-IsSound user now entry t p w (found_by_ticket t pending_cash w.store h n)
              (ground (arith, passes)) h in
          elim (Bool-cases (not admin && not (p.payee_id == user))) [
            | inl e ↦ rw (n, e, confirm_cash) h
            | inr d ↦ rw (n, d, confirm_cash) done
          ]
    ]

pub refund-IsSound :
    (policy : RefundPolicy) (request : RefundAmount) (by : Option ℕ) (now id : ℕ) (w : World)
    → IsSound w.store
    → IsSound (refund policy request by now id w).0.store
unfolding refund
refund-IsSound policy request by now id w h = elim (Option-cases (find_payment id w.store)) [
  | inl n ↦ rw (n, refund) h
  | inr (p, n) ↦ elim (Result-cases (check_refund policy request p)) [
    | inr (e, r) ↦ rw (n, r, refund) h
    | inl (total, r) ↦
        let i : p.id ≡ id = get_row-id payment_id id w.store.payments n in
        rw (n, r, refund)
          (refund_now-IsSound total by now p w
            (subst (λ x. find_payment x w.store ≡ some p) (sym i) n)
            (refunded_active policy request p r) (refund_fits policy request p r) h)
  ]
]

receive-IsSound :
    (ipn : Ipn) (ref : ℕ) (p : Payment) (w : World)
    → find_payment p.id w.store ≡ some p
    → IsSound w.store
    → IsSound (receive ipn ref p w).0.store
receive-IsSound ipn ref p w f h = elim (Bool-cases (was_held p)) [
  | inl e ↦ rw (e, receive) h
  | inr d ↦ elim (Bool-cases (is_pending p.status)) [
    | inr n ↦ rw (d, n, receive) h
    | inl e ↦ elim (Result-cases (check_amount ipn.amount p)) [
      | inr (m, r) ↦ rw (d, e, r, receive) h
      | inl (u, r) ↦ rw (d, e, r, receive) (hold_now-IsSound (or_else ipn.ipn_ref ref) p w f e h)
    ]
  ]
]

receive_found-IsSound :
    (ipn : Ipn) (ref : ℕ) (o : Option Payment) (w : World)
    → find_by_qr_ref ref w.store ≡ o
    → IsSound w.store
    → IsSound (receive_found ipn ref o w).0.store
unfolding find_by_qr_ref IsSound
receive_found-IsSound ipn ref none w f h = h
receive_found-IsSound ipn ref (some p) w f h =
    receive-IsSound ipn ref p w
      (find-All (has_ref ref) (λ q. get_row payment_id q.id w.store.payments ≡ some q)
        w.store.payments f (IsKeyed-All payment_id w.store.payments h.0))
      h

pub handle_sepay_ipn-IsSound :
    (ipn : Ipn) (w : World) → IsSound w.store → IsSound (handle_sepay_ipn ipn w).0.store
unfolding handle_sepay_ipn
handle_sepay_ipn-IsSound ipn w h = elim (Bool-cases ipn.authorized) [
  | inr d ↦ rw (d, handle_sepay_ipn) h
  | inl e ↦ elim (Bool-cases ipn.is_paid) [
    | inr d ↦ rw (e, d, handle_sepay_ipn) h
    | inl paid ↦ elim (Option-cases ipn.qr_ref) [
      | inl n ↦ rw (e, paid, n, handle_sepay_ipn) h
      | inr (ref, n) ↦
          rw (e, paid, n, handle_sepay_ipn)
            (receive_found-IsSound ipn ref (find_by_qr_ref ref w.store) w refl h)
    ]
  ]
]

cancel_one-IsSound :
    (t : ℕ) (p : Payment) (w : World) → IsSound w.store → IsSound (cancel_one t p w).store
unfolding cancel_one
cancel_one-IsSound t p w h =
    let after = update_status p.id cancelled (λ q. q) w.store in
    elim (Option-cases after.1) [
      | inl n ↦
          rw (n, cancel_one)
            (write_status-IsSound p.id cancelled (λ q. q) w.store (λ q. refl) (λ q. refl)
              (λ q. refl) (λ q e k. refl) (λ q e k. cancel_fits q) h)
      | inr (u, n) ↦
          rw (n, cancel_one, stamp_store t u none (record w { store = after.0 }))
            (close_payment-IsSound t p.id cancelled (λ q. q) w.store (λ q. refl) (λ q. refl)
              (λ q. refl) refl (λ q e k. cancel_fits q) h)
    ]

cancel_each-IsSound :
    (t : ℕ) (rows : List Payment) (w : World)
    → IsSound w.store
    → IsSound (cancel_each t rows w).store
unfolding cancel_each
cancel_each-IsSound t [] w h = h
cancel_each-IsSound t (p ∷ rows) w h = elim (Bool-cases (is_pending p.status)) [
  | inl e ↦ rw e (cancel_each-IsSound t rows (cancel_one t p w) (cancel_one-IsSound t p w h))
  | inr d ↦ rw d (cancel_each-IsSound t rows w h)
]

pub cancel_pending_payments-IsSound :
    (t : ℕ) (w : World) → IsSound w.store → IsSound (cancel_pending_payments t w).store
unfolding cancel_pending_payments
cancel_pending_payments-IsSound t w h =
    let existing = find_by_ticket t w.store.payments in
    elim (Bool-cases (has_pending existing)) [
      | inl e ↦ rw (e, cancel_pending_payments) (cancel_each-IsSound t existing w h)
      | inr d ↦ rw (d, cancel_pending_payments) (cancel_each-IsSound t existing w h)
    ]
