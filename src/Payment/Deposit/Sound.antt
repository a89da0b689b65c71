-- ===== src/Payment/Deposit/Sound.antt =====
-- Asking for a deposit keeps the guards right.
use roadassistapp_be.Base.{
  true, refl, ℕ, ◌≡◌, Option, none, some, find, Option-cases, inl, inr, arith,
}
use roadassistapp_be.Base.Result.{Result-cases}
use roadassistapp_be.PaymentStatus.{PaymentMethod, cash, sepay}
use roadassistapp_be.Ticket.{Ticket}
use roadassistapp_be.Payment.{Payment, deposit, find_payment, find_by_ticket}
use roadassistapp_be.Payment.Guarded.{IsSound, accounts, create_guarded-IsSound}
use roadassistapp_be.Payment.World.{World, TicketRow, Config, find_ticket, resolve_payee_id}
use roadassistapp_be.Payment.Collect.{Fresh, payment_input}
use roadassistapp_be.Payment.Deposit.{
  active_deposit, open_deposit, check_deposit, deposit_for, create_deposit_payment,
  mark_deposit_confirmed,
}

open_deposit-IsSound :
    (fresh : Fresh) (config : Config) (t : Ticket) (amount : ℕ) (w : World)
    → find_payment fresh.id w.store ≡ none
    → IsSound w.store
    → IsSound (open_deposit fresh config t amount w).0.store
unfolding open_deposit payment_input accounts
open_deposit-IsSound fresh config t amount w new h =
    elim (Result-cases (resolve_payee_id t w.shops)) [
      | inr (e, r) ↦ rw (r, open_deposit) h
      | inl (payee, r) ↦
          let input =
            payment_input t.id t.user_id payee sepay amount (config.commission_rate t.ticket_type)
              deposit fresh.qr_ref in
          let opens : accounts input.status 0 input.amount ≡ true = refl in
          rw (r, open_deposit) (create_guarded-IsSound fresh.id fresh.now input w.store new opens h)
    ]

deposit_for-IsSound :
    (fresh : Fresh) (config : Config) (user : ℕ) (row : TicketRow) (w : World)
    → find_payment fresh.id w.store ≡ none
    → IsSound w.store
    → IsSound (deposit_for fresh config user row w).0.store
deposit_for-IsSound fresh config user row w new h =
    elim (Result-cases (check_deposit user row.ticket)) [
      | inr (e, r) ↦ rw (r, deposit_for) h
      | inl (amount, r) ↦
          elim (Option-cases
            (find active_deposit (find_by_ticket row.ticket.id w.store.payments))) [
              | inr (p, f) ↦ rw (r, f, deposit_for) h
              | inl n ↦
                  rw (r, n, deposit_for)
                    (open_deposit-IsSound fresh config row.ticket amount w new h)
            ]
    ]

pub create_deposit_payment-IsSound :
    (fresh : Fresh) (config : Config) (user t : ℕ) (m : Option PaymentMethod) (w : World)
    → find_payment fresh.id w.store ≡ none
    → IsSound w.store
    → IsSound (create_deposit_payment fresh config user t m w).0.store
unfolding create_deposit_payment
create_deposit_payment-IsSound fresh config user t none w new h = h
create_deposit_payment-IsSound fresh config user t (some cash) w new h = h
create_deposit_payment-IsSound fresh config user t (some sepay) w new h =
    elim (Option-cases (find_ticket t w)) [
      | inl n ↦ rw (n, create_deposit_payment) h
      | inr (row, n) ↦
          rw (n, create_deposit_payment) (deposit_for-IsSound fresh config user row w new h)
    ]

pub mark_deposit_confirmed_store :
    (p : Payment) (w : World) → (mark_deposit_confirmed p w).store ≡ w.store
unfolding mark_deposit_confirmed
mark_deposit_confirmed_store p w = ground arith
