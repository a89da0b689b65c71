-- ===== src/Payment/Collect/Shadow.antt =====
-- What becomes of a balance while the guard of the ticket names its deposit.
use roadassistapp_be.Base.{
  ℕ, ◌≡◌, ◌<◌, refl, true, false, Option, none, some, if◌then◌else◌, leb, Bool-cases, inl, inr,
  arith, String,
}
use roadassistapp_be.Base.Result.{Result, ok, err, conflict}
use roadassistapp_be.PaymentStatus.{PaymentMethod, is_cash, same_method}
use roadassistapp_be.Ticket.{Ticket}
use roadassistapp_be.Payment.{Payment, is_deposit, find_by_ticket, guarded_payment, create_guarded}
use roadassistapp_be.Payment.World.{
  World, TicketRow, Config, PaymentWithCheckout, find_ticket, stamp_ticket_payment,
  resolve_payee_id,
}
use roadassistapp_be.Payment.Switch.{find_active}
use roadassistapp_be.Payment.Collect.{
  Fresh, as_reused, open_payment, pending_deposit, check_payable, pay_amount,
  create_payment_for_ticket, payment_input, switch_or_open, deposit_first,
}

-- What `asReused` answers for a deposit.
abbrev pub reused_reply : Payment → PaymentMethod → Result PaymentWithCheckout
reused_reply p m =
    if same_method p.method m
    then ok
        (record { payment = p; checkout = if is_cash m then none else some p.id; reused = true })
    else err (conflict "Ticket already has an active payment")

as_reused_deposit :
    (p : Payment) (m : PaymentMethod) (w : World)
    → is_deposit p.purpose ≡ true
    → as_reused p m w ≡ (w, reused_reply p m)
unfolding as_reused stamp_ticket_payment
as_reused_deposit p m w d = elim (Bool-cases (same_method p.method m)) [
  | inr e ↦ rw (e, as_reused) refl
  | inl e ↦ elim (Bool-cases (is_cash m)) [
    | inl c ↦ rw (e, c, as_reused) refl
    | inr n ↦ rw (e, n, d, as_reused, stamp_ticket_payment) refl
  ]
]

open_payment_deposit :
    (fresh : Fresh) (config : Config) (t : Ticket) (m : PaymentMethod) (amount : ℕ) (w : World)
    {payee : ℕ} {p : Payment}
    → resolve_payee_id t w.shops ≡ ok payee
    → guarded_payment t.id w.store ≡ some p
    → is_deposit p.purpose ≡ true
    → open_payment fresh config t m amount w ≡ (w, reused_reply p m)
unfolding open_payment create_guarded payment_input
open_payment_deposit fresh config t m amount w r g d =
    rw (r, open_payment, g, create_guarded) (as_reused_deposit _ m w d)

-- While the guard of a ticket with a payee names a deposit, no deposit of the ticket is pending and
-- no other payment of it is active, a request to pay the positive amount that is due creates no payment and leaves
-- the state: it answers with the deposit, or with a conflict if the method is another one.
pub balance_shadowed :
    (cancel_order : Option ℕ → Option String) (fresh : Fresh) (config : Config) (user t : ℕ)
    (method : Option PaymentMethod) (w : World) {row : TicketRow} {m : PaymentMethod}
    {amount payee : ℕ} {p : Payment}
    → find_ticket t w ≡ some row
    → check_payable user row.ticket method config ≡ ok (m, amount)
    → 0 < amount
    → pending_deposit (find_by_ticket row.ticket.id w.store.payments) ≡ none
    → find_active (find_by_ticket row.ticket.id w.store.payments) ≡ none
    → resolve_payee_id row.ticket w.shops ≡ ok payee
    → guarded_payment row.ticket.id w.store ≡ some p
    → is_deposit p.purpose ≡ true
    → create_payment_for_ticket cancel_order fresh config user t method w ≡ (w, reused_reply p m)
unfolding create_payment_for_ticket pay_amount
balance_shadowed cancel_order fresh config user t method w {row} {m} {amount} f c due no_pending
      no_active r g d =
    let unsettled : leb amount 0 ≡ false = ground (arith, due) in
    rw
      (
        f, c, create_payment_for_ticket, pay_amount, unsettled, no_pending, deposit_first,
        no_active, switch_or_open,
      )
      (open_payment_deposit fresh config row.ticket m amount w r g d)
