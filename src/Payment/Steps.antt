-- ===== src/Payment/Steps.antt =====
-- Requests in any order: each step runs one handler of the payments on the state that the steps
-- before it left, whatever SePay answers. A handler that creates a payment is given an id that no
-- payment has.
use roadassistapp_be.Base.{
  ◌≤◌, arith, or_else, find-All, ℕ, ◌≡◌, Bool, true, Option, none, some, String,
}
use roadassistapp_be.PaymentStatus.{PaymentMethod}
use roadassistapp_be.Payment.{Payment, find_payment}
use roadassistapp_be.Payment.Guarded.{IsSound, is_accounted, accounts_bound, is_live, one_live}
use roadassistapp_be.Payment.World.{World, Config, RefundPolicy}
use roadassistapp_be.Payment.Switch.{cancel_pending_payment}
use roadassistapp_be.Payment.Switch.Sound.{cancel_pending_payment-IsSound}
use roadassistapp_be.Payment.Collect.{Fresh, create_payment_for_ticket}
use roadassistapp_be.Payment.Collect.Sound.{create_payment_for_ticket-IsSound}
use roadassistapp_be.Payment.Deposit.{create_deposit_payment}
use roadassistapp_be.Payment.Deposit.Sound.{create_deposit_payment-IsSound}
use roadassistapp_be.Payment.Settle.{
  Ipn, RefundAmount, confirm_cash, handle_sepay_ipn, refund, cancel_pending_payments,
}
use roadassistapp_be.Payment.Settle.Sound.{
  confirm_cash-IsSound, handle_sepay_ipn-IsSound, refund-IsSound, cancel_pending_payments-IsSound,
}

pub data Step : World → World → Type 0 where
  pays :
      (cancel_order : Option ℕ → Option String) (fresh : Fresh) (config : Config) (user t : ℕ)
      (m : Option PaymentMethod) (w : World)
      → find_payment fresh.id w.store ≡ none
      → Step w (create_payment_for_ticket cancel_order fresh config user t m w).0
  deposits :
      (fresh : Fresh) (config : Config) (user t : ℕ) (m : Option PaymentMethod) (w : World)
      → find_payment fresh.id w.store ≡ none
      → Step w (create_deposit_payment fresh config user t m w).0
  switches :
      (cancel_order : Option ℕ → Option String) (user t : ℕ) (w : World)
      → Step w (cancel_pending_payment cancel_order user t w).0
  confirms :
      (user now entry : ℕ) (caller : Option Bool) (t : ℕ) (w : World)
      → Step w (confirm_cash user now entry caller t w).0
  notifies : (ipn : Ipn) (w : World) → Step w (handle_sepay_ipn ipn w).0
  refunds :
      (policy : RefundPolicy) (request : RefundAmount) (by : Option ℕ) (now id : ℕ) (w : World)
      → Step w (refund policy request by now id w).0
  cancels : (t : ℕ) (w : World) → Step w (cancel_pending_payments t w)

pub data Steps : World → World → Type 0 where
  done : (w : World) → Steps w w
  then : (a b c : World) → Step a b → Steps b c → Steps a c

pub Step-IsSound : (v w : World) → Step v w → IsSound v.store → IsSound w.store
Step-IsSound _ _ (pays cancel_order fresh config user t m w new) h =
    create_payment_for_ticket-IsSound cancel_order fresh config user t m w new h
Step-IsSound _ _ (deposits fresh config user t m w new) h =
    create_deposit_payment-IsSound fresh config user t m w new h
Step-IsSound _ _ (switches cancel_order user t w) h =
    cancel_pending_payment-IsSound cancel_order user t w h
Step-IsSound _ _ (confirms user now entry caller t w) h =
    confirm_cash-IsSound user now entry caller t w h
Step-IsSound _ _ (notifies ipn w) h = handle_sepay_ipn-IsSound ipn w h
Step-IsSound _ _ (refunds policy request by now id w) h =
    refund-IsSound policy request by now id w h
Step-IsSound _ _ (cancels t w) h = cancel_pending_payments-IsSound t w h

Steps-IsSound : (v w : World) → Steps v w → IsSound v.store → IsSound w.store
Steps-IsSound _ _ (done w) h = h
Steps-IsSound _ _ (then a b c s rest) h = Steps-IsSound b c rest (Step-IsSound a b s h)

-- After any sequence of payment requests from a sound state, such as one without payments, two
-- active payments of the same ticket (subscriptions aside) are the same payment.
pub steps_one_live :
    (v w : World) (a b : ℕ) {p q : Payment}
    → IsSound v.store
    → Steps v w
    → find_payment a w.store ≡ some p
    → find_payment b w.store ≡ some q
    → is_live p ≡ true
    → is_live q ≡ true
    → p.ticket_id ≡ q.ticket_id
    → a ≡ b
steps_one_live v w a b h s fp fq lp lq t =
    one_live w.store a b (Steps-IsSound v w s h) fp fq lp lq t

-- After any sequence of payment requests from a sound state, the refunds of every payment fit its
-- status: none while it is pending, held or confirmed, a part of the amount when it is PARTIAL, all
-- of it when it is REFUNDED, and never more than the amount.
pub steps_accounted :
    (v w : World) (a : ℕ) {p : Payment}
    → IsSound v.store
    → Steps v w
    → find_payment a w.store ≡ some p
    → (is_accounted p ≡ true) × (or_else p.refund_amount 0 ≤ p.amount)
unfolding IsSound
steps_accounted v w a {p} h s f =
    let fits : is_accounted p ≡ true =
      find-All _ (λ q. is_accounted q ≡ true) w.store.payments f (Steps-IsSound v w s h).1.1 in
    let bound = accounts_bound p.status (or_else p.refund_amount 0) p.amount fits in
    (fits, ground (arith, bound))
