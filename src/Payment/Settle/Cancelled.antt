-- ===== src/Payment/Settle/Cancelled.antt =====
-- The payments after a ticket's pending ones are cancelled: none of the ticket is pending.
use roadassistapp_be.Base.{
  ℕ, ◌≡◌, refl, sym, subst, inl, inr, Bool, true, false, ◌&&◌, Option, none, some, List, [], ◌∷◌,
  arith, ◌==◌, Bool-cases, is_some, find, All, All-map,
}
use roadassistapp_be.Base.Store.{update_row, All-update_row_to, All-update_row}
use roadassistapp_be.PaymentStatus.{is_pending, cancelled}
use roadassistapp_be.Payment.{
  Payment, payment_id, clear_guard, find_by_ticket, update, update_status,
}
use roadassistapp_be.Payment.World.{World, stamp_ticket_payment}
use roadassistapp_be.Payment.Settle.{
  cancel_stamped, cancel_one, cancel_each, has_pending, cancel_pending_payments,
}

abbrev pub to_cancelled : Payment → Payment
to_cancelled p = record p { status = cancelled }

-- One cancellation writes one row, whatever becomes of the ticket and the guard.
cancel_stamped_payments :
    (t : ℕ) (p : Payment) (found : Option Payment) (w : World)
    → (cancel_stamped t p found w).store.payments ≡ w.store.payments
unfolding clear_guard stamp_ticket_payment
cancel_stamped_payments t p none w = refl
cancel_stamped_payments t p (some u) w = ground arith

cancel_one_payments :
    (t : ℕ) (p : Payment) (w : World)
    → (cancel_one t p w).store.payments ≡ update_row payment_id p.id to_cancelled w.store.payments
unfolding cancel_one update_status update
cancel_one_payments t p w =
    let (after, found) = update_status p.id cancelled (λ q. q) w.store in
    cancel_stamped_payments t p found (record w { store = after })

cancel_each-All :
    (P : Payment → Type 0) (t : ℕ) (rows : List Payment) (w : World)
    → ((q : Payment) → P q → P (to_cancelled q))
    → All P w.store.payments
    → All P (cancel_each t rows w).store.payments
unfolding cancel_each
cancel_each-All P t [] w k h = h
cancel_each-All P t (p ∷ rows) w k h = elim (Bool-cases (is_pending p.status)) [
  | inr d ↦ rw d (cancel_each-All P t rows w k h)
  | inl e ↦ rw e (
      cancel_each-All P t rows (cancel_one t p w) k (
        subst (All P) (sym (cancel_one_payments t p w))
          (All-update_row payment_id P p.id to_cancelled w.store.payments k h)))
]

abbrev awaited_as : Payment → Payment → Bool
awaited_as q r = (r.id == q.id) && is_pending r.status

-- A pending payment of the ticket is one of the rows that are left to cancel.
abbrev IsAwaited : ℕ → List Payment → Payment → Type 0
IsAwaited t rows q =
    q.ticket_id ≡ t → is_pending q.status ≡ true → is_some (find (awaited_as q) rows) ≡ true

cancel_each_none :
    (t : ℕ) (rows : List Payment) (w : World)
    → All (IsAwaited t rows) w.store.payments
    → All (IsAwaited t []) (cancel_each t rows w).store.payments
unfolding cancel_each
cancel_each_none t [] w h = h
cancel_each_none t (p ∷ rows) w h = elim (Bool-cases (is_pending p.status)) [
  | inr d ↦ rw d (
      cancel_each_none t rows w (
        All-map (IsAwaited t (p ∷ rows)) (IsAwaited t rows)
          (λ q k a b. let x = k a b in ground (arith, d, x)) w.store.payments h))
  | inl e ↦ rw e (
      cancel_each_none t rows (cancel_one t p w) (
        subst (All (IsAwaited t rows)) (sym (cancel_one_payments t p w)) (
          All-update_row_to payment_id (IsAwaited t (p ∷ rows)) (IsAwaited t rows) p.id to_cancelled
            w.store.payments (λ q i k a b. cc b)
            (λ q i k a b. let x = k a b in ground (arith, i, x)) h)))
]

find_by_ticket-IsAwaited :
    (t : ℕ) (rows : List Payment) → All (IsAwaited t (find_by_ticket t rows)) rows
unfolding find_by_ticket
find_by_ticket-IsAwaited t [] = tt
find_by_ticket-IsAwaited t (p ∷ rows) =
    let rest = find_by_ticket-IsAwaited t rows in
    let found = find_by_ticket t rows in
    elim (Bool-cases (p.ticket_id == t)) [
      | inr d ↦
          let same : find_by_ticket t (p ∷ rows) ≡ found = rw d refl in
          subst (λ xs. All (IsAwaited t xs) (p ∷ rows)) (sym same)
            ((λ a b. ground (arith, d, a)), rest)
      | inl e ↦
          let same : find_by_ticket t (p ∷ rows) ≡ p ∷ found = rw e refl in
          subst (λ xs. All (IsAwaited t xs) (p ∷ rows)) (sym same)
            (
              λ a b. ground (arith, b),
              All-map (IsAwaited t found) (IsAwaited t (p ∷ found))
                  (λ q k a b. let x = k a b in ground (arith, x)) rows rest,
            )
    ]

abbrev pub HasNoPending : ℕ → Payment → Type 0
HasNoPending t q = q.ticket_id ≡ t → is_pending q.status ≡ false

-- No payment of the ticket is pending once its pending payments are cancelled.
pub cancel_pending_payments_none :
    (t : ℕ) (w : World) → All (HasNoPending t) (cancel_pending_payments t w).store.payments
unfolding cancel_pending_payments
cancel_pending_payments_none t w =
    let existing = find_by_ticket t w.store.payments in
    let after = cancel_each t existing w in
    let none_left =
      All-map (IsAwaited t []) (HasNoPending t)
        (λ q k a. elim (Bool-cases (is_pending q.status)) [
          | inl e ↦ let no : false ≡ true = k a e in cc no
          | inr d ↦ d
        ])
        after.store.payments
        (cancel_each_none t existing w (find_by_ticket-IsAwaited t w.store.payments)) in
    elim (Bool-cases (has_pending existing)) [
      | inl e ↦ rw (e, cancel_pending_payments) none_left
      | inr d ↦ rw (d, cancel_pending_payments) none_left
    ]

-- What holds of every payment, and of it when it is cancelled, holds of every payment afterwards.
pub cancel_pending_payments-All :
    (P : Payment → Type 0) (t : ℕ) (w : World)
    → ((q : Payment) → P q → P (to_cancelled q))
    → All P w.store.payments
    → All P (cancel_pending_payments t w).store.payments
unfolding cancel_pending_payments
cancel_pending_payments-All P t w k h =
    let existing = find_by_ticket t w.store.payments in
    let all = cancel_each-All P t existing w k h in
    elim (Bool-cases (has_pending existing)) [
      | inl e ↦ rw (e, cancel_pending_payments) all
      | inr d ↦ rw (d, cancel_pending_payments) all
    ]
