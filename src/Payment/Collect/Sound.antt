-- ===== src/Payment/Collect/Sound.antt =====
-- Opening a payment keeps the guards right.
use roadassistapp_be.Base.{
  true, refl, ℕ, ◌≡◌, Option, none, some, Bool-cases, Option-cases, inl, inr, arith, String,
}
use roadassistapp_be.Base.Result.{ok, err, Result-cases}
use roadassistapp_be.PaymentStatus.{PaymentMethod, same_method}
use roadassistapp_be.Ticket.{Ticket}
use roadassistapp_be.Payment.{
  Payment, Created, balance, find_payment, find_by_ticket, create_guarded,
}
use roadassistapp_be.Payment.Guarded.{IsSound, accounts, create_guarded-IsSound}
use roadassistapp_be.Payment.World.{
  World, Reply, Config, find_ticket, stamp_ticket_payment, resolve_payee_id,
}
use roadassistapp_be.Payment.Switch.{find_active, cancel_active_for_switch}
use roadassistapp_be.Payment.Switch.Sound.{
  find_active_stored, cancel_active_for_switch_fresh, cancel_active_for_switch-IsSound,
}
use roadassistapp_be.Payment.Collect.{
  Fresh, as_reused, payment_input, answer_created, open_payment, after_switch, switch_or_open,
  deposit_first, pay_amount, settled_by, pending_deposit, check_payable, create_payment_for_ticket,
}

pub stamp_store :
    (t : ℕ) (p : Payment) (c : Option ℕ) (w : World)
    → (stamp_ticket_payment t p c w).store ≡ w.store
unfolding stamp_ticket_payment
stamp_store t p c w = ground arith

as_reused_store :
    (p : Payment) (m : PaymentMethod) (w : World) → (as_reused p m w).0.store ≡ w.store
unfolding as_reused
as_reused_store p m w = ground (arith, stamp_store p.ticket_id p (some p.id) w)

pub answer_created_store :
    (t : ℕ) (m : PaymentMethod) (c : Created) (w : World)
    → (answer_created t m c w).0.store ≡ w.store
answer_created_store t m c w = ground (
  arith,
  as_reused_store c.payment m w,
  stamp_store t c.payment none w,
  stamp_store t c.payment (some c.payment.id) w,
)

open_payment-IsSound :
    (fresh : Fresh) (config : Config) (t : Ticket) (m : PaymentMethod) (amount : ℕ) (w : World)
    → find_payment fresh.id w.store ≡ none
    → IsSound w.store
    → IsSound (open_payment fresh config t m amount w).0.store
unfolding open_payment payment_input accounts
open_payment-IsSound fresh config t m amount w new h =
    elim (Result-cases (resolve_payee_id t w.shops)) [
      | inr (e, r) ↦ rw (r, open_payment) h
      | inl (payee, r) ↦
          let input =
            payment_input t.id t.user_id payee m amount (config.commission_rate t.ticket_type)
              balance fresh.qr_ref in
          let opens : accounts input.status 0 input.amount ≡ true = refl in
          let made = create_guarded fresh.id fresh.now input w.store in
          rw (r, open_payment)
            (rw (answer_created_store t.id m made.1 (record w { store = made.0 }))
              (create_guarded-IsSound fresh.id fresh.now input w.store new opens h))
    ]

module _ (cancel_order : Option ℕ → Option String) where
  after_switch-IsSound :
      (fresh : Fresh) (config : Config) (t : Ticket) (m : PaymentMethod) (amount : ℕ)
      (r : Reply (Unit {0}))
      → find_payment fresh.id r.0.store ≡ none
      → IsSound r.0.store
      → IsSound (after_switch cancel_order fresh config t m amount r).0.store
  after_switch-IsSound fresh config t m amount (w, err e) new h = h
  after_switch-IsSound fresh config t m amount (w, ok u) new h =
      open_payment-IsSound fresh config t m amount w new h

  switch_or_open-IsSound :
      (fresh : Fresh) (config : Config) (t : Ticket) (m : PaymentMethod) (amount : ℕ) (w : World)
      → find_payment fresh.id w.store ≡ none
      → IsSound w.store
      → IsSound (switch_or_open cancel_order fresh config t m amount w).0.store
  switch_or_open-IsSound fresh config t m amount w new h =
      elim (Option-cases (find_active (find_by_ticket t.id w.store.payments))) [
        | inl n ↦ rw (n, switch_or_open) (open_payment-IsSound fresh config t m amount w new h)
        | inr (active, f) ↦ elim (Bool-cases (same_method active.method m)) [
          | inl e ↦ rw (f, e, switch_or_open, as_reused_store active m w) h
          | inr d ↦
              rw (f, d, switch_or_open)
                (after_switch-IsSound fresh config t m amount
                  (cancel_active_for_switch cancel_order active t.id w)
                  (cancel_active_for_switch_fresh cancel_order active t.id fresh.id w new)
                  (cancel_active_for_switch-IsSound cancel_order active t.id w
                    (find_active_stored t.id w.store h f) h))
        ]
      ]

  deposit_first-IsSound :
      (fresh : Fresh) (config : Config) (t : Ticket) (m : PaymentMethod) (amount : ℕ) (w : World)
      → find_payment fresh.id w.store ≡ none
      → IsSound w.store
      → IsSound (deposit_first cancel_order fresh config t m amount w).0.store
  deposit_first-IsSound fresh config t m amount w new h =
      elim (Option-cases (pending_deposit (find_by_ticket t.id w.store.payments))) [
        | inl n ↦ rw (n, deposit_first) (switch_or_open-IsSound fresh config t m amount w new h)
        | inr (p, f) ↦ elim (Bool-cases (same_method p.method m)) [
          | inl e ↦ rw (f, e, deposit_first, as_reused_store p m w) h
          | inr d ↦ rw (f, d, deposit_first) h
        ]
      ]

  pay_amount-IsSound :
      (fresh : Fresh) (config : Config) (t : Ticket) (m : PaymentMethod) (amount : ℕ) (w : World)
      → find_payment fresh.id w.store ≡ none
      → IsSound w.store
      → IsSound (pay_amount cancel_order fresh config t m amount w).0.store
  unfolding pay_amount
  pay_amount-IsSound fresh config t m amount w new h =
      elim (Option-cases (settled_by amount (find_by_ticket t.id w.store.payments))) [
        | inr (p, f) ↦ rw (f, pay_amount) h
        | inl n ↦ rw (n, pay_amount) (deposit_first-IsSound fresh config t m amount w new h)
      ]

  pub create_payment_for_ticket-IsSound :
      (fresh : Fresh) (config : Config) (user t : ℕ) (m : Option PaymentMethod) (w : World)
      → find_payment fresh.id w.store ≡ none
      → IsSound w.store
      → IsSound (create_payment_for_ticket cancel_order fresh config user t m w).0.store
  unfolding create_payment_for_ticket
  create_payment_for_ticket-IsSound fresh config user t m w new h =
      elim (Option-cases (find_ticket t w)) [
        | inl n ↦ rw (n, create_payment_for_ticket) h
        | inr (row, n) ↦ elim (Result-cases (check_payable user row.ticket m config)) [
          | inr (e, r) ↦ rw (n, r, create_payment_for_ticket) h
          | inl ((method, amount), r) ↦
              rw (n, r, create_payment_for_ticket)
                (pay_amount-IsSound fresh config row.ticket method amount w new h)
        ]
      ]
