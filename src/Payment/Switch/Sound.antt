-- ===== src/Payment/Switch/Sound.antt =====
-- Cancelling the active payment of a ticket keeps the guards right.
use roadassistapp_be.Base.{
  ℕ, ◌==◌, ◌≡◌, refl, Option, none, some, Bool-cases, Option-cases, inl, inr, arith, String,
}
use roadassistapp_be.Base.Store.{update_row_fresh}
use roadassistapp_be.PaymentStatus.{PaymentStatus, cancelled, is_pending}
use roadassistapp_be.Payment.{
  Payment, Store, payment_id, update, find_payment, find_by_ticket, update_status, clear_guard,
}
use roadassistapp_be.Payment.Guarded.{
  IsSound, update_status-IsSound, close_payment-IsSound, found_by_ticket, cancel_fits,
}
use roadassistapp_be.Payment.World.{World, find_ticket}
use roadassistapp_be.Payment.Switch.{
  find_active, active_balance, cancel_now, sepay_refusal, cancel_active_for_switch, cancel_found,
  cancel_pending_payment,
}

-- A payment that is found active among those of a ticket is stored under its id.
pub find_active_stored :
    (t : ℕ) (s : Store) {p : Payment}
    → IsSound s
    → find_active (find_by_ticket t s.payments) ≡ some p
    → find_payment p.id s ≡ some p
unfolding find_active
find_active_stored t s h f = found_by_ticket t active_balance s h f

cancel_now-IsSound :
    (active : Payment) (t : ℕ) (w : World)
    → find_payment active.id w.store ≡ some active
    → IsSound w.store
    → IsSound (cancel_now active t w).0.store
unfolding cancel_now
cancel_now-IsSound active t w f h =
    elim (Option-cases (update_status active.id cancelled (λ p. p) w.store).1) [
      | inl n ↦
          rw (n, cancel_now)
            (update_status-IsSound active.id cancelled (λ p. p) w.store (λ q. refl) (λ q. refl)
              (λ q. refl) f refl (cancel_fits active) h)
      | inr (p, n) ↦
          rw (n, cancel_now)
            (close_payment-IsSound t active.id cancelled (λ p. p) w.store (λ q. refl) (λ q. refl)
              (λ q. refl) refl (λ q e k. cancel_fits q) h)
    ]

update_status_fresh :
    (id other : ℕ) (status : PaymentStatus) (s : Store)
    → find_payment other s ≡ none
    → find_payment other (update_status id status (λ p. p) s).0 ≡ none
unfolding update_status update
update_status_fresh id other status s new =
    update_row_fresh payment_id id other (λ q. record q { status = status }) s.payments (λ q. refl)
      new

clear_guard_fresh :
    (t id other : ℕ) (s : Store)
    → find_payment other s ≡ none
    → find_payment other (clear_guard t id s) ≡ none
unfolding clear_guard
clear_guard_fresh t id other s new = ground (arith, new)

cancel_now_fresh :
    (active : Payment) (t other : ℕ) (w : World)
    → find_payment other w.store ≡ none
    → find_payment other (cancel_now active t w).0.store ≡ none
unfolding cancel_now
cancel_now_fresh active t other w new =
    let kept = update_status_fresh active.id other cancelled w.store new in
    elim (Option-cases (update_status active.id cancelled (λ p. p) w.store).1) [
      | inl n ↦ rw (n, cancel_now) kept
      | inr (p, n) ↦
          rw (n, cancel_now)
            (clear_guard_fresh t active.id other
              (update_status active.id cancelled (λ p. p) w.store).0 kept)
    ]

module _ (cancel_order : Option ℕ → Option String) where
  pub cancel_active_for_switch-IsSound :
      (active : Payment) (t : ℕ) (w : World)
      → find_payment active.id w.store ≡ some active
      → IsSound w.store
      → IsSound (cancel_active_for_switch cancel_order active t w).0.store
  unfolding cancel_active_for_switch
  cancel_active_for_switch-IsSound active t w f h = elim (Bool-cases (is_pending active.status)) [
    | inr d ↦ rw (d, cancel_active_for_switch) h
    | inl e ↦ elim (Option-cases (sepay_refusal cancel_order active)) [
      | inr (m, r) ↦ rw (e, r, cancel_active_for_switch) h
      | inl r ↦ rw (e, r, cancel_active_for_switch) (cancel_now-IsSound active t w f h)
    ]
  ]

  -- An id that no payment has stays so.
  pub cancel_active_for_switch_fresh :
      (active : Payment) (t other : ℕ) (w : World)
      → find_payment other w.store ≡ none
      → find_payment other (cancel_active_for_switch cancel_order active t w).0.store ≡ none
  unfolding cancel_active_for_switch
  cancel_active_for_switch_fresh active t other w new =
      elim (Bool-cases (is_pending active.status)) [
        | inr d ↦ rw (d, cancel_active_for_switch) new
        | inl e ↦ elim (Option-cases (sepay_refusal cancel_order active)) [
          | inr (m, r) ↦ rw (e, r, cancel_active_for_switch) new
          | inl r ↦ rw (e, r, cancel_active_for_switch) (cancel_now_fresh active t other w new)
        ]
      ]

  cancel_found-IsSound :
      (o : Option Payment) (t : ℕ) (w : World)
      → find_active (find_by_ticket t w.store.payments) ≡ o
      → IsSound w.store
      → IsSound (cancel_found cancel_order o t w).0.store
  cancel_found-IsSound none t w f h = h
  cancel_found-IsSound (some p) t w f h = elim (Bool-cases (is_pending p.status)) [
    | inr d ↦ rw d h
    | inl e ↦ rw e (cancel_active_for_switch-IsSound p t w (find_active_stored t w.store h f) h)
  ]

  pub cancel_pending_payment-IsSound :
      (user t : ℕ) (w : World)
      → IsSound w.store
      → IsSound (cancel_pending_payment cancel_order user t w).0.store
  unfolding cancel_pending_payment
  cancel_pending_payment-IsSound user t w h = elim (Option-cases (find_ticket t w)) [
    | inl n ↦ rw (n, cancel_pending_payment) h
    | inr (row, n) ↦ elim (Bool-cases (row.ticket.user_id == user)) [
      | inr d ↦ rw (n, d, cancel_pending_payment) h
      | inl e ↦
          rw (n, e, cancel_pending_payment)
            (cancel_found-IsSound (find_active (find_by_ticket t w.store.payments)) t w refl h)
    ]
  ]
