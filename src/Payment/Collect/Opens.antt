-- ===== src/Payment/Collect/Opens.antt =====
-- A request to pay the balance of a ticket that has no payment in the way.
use roadassistapp_be.Base.{
  ℕ, ◌==◌, ◌*◌, ◌≡◌, ◌<◌, refl, true, false, Option, none, some, leb, Bool-cases, inl, inr, arith,
  String, ==_iff, if◌then◌else◌,
}
use roadassistapp_be.Base.Int.{round_div, sub_ℕ}
use roadassistapp_be.Base.Result.{ok}
use roadassistapp_be.PaymentStatus.{PaymentMethod, pending, is_cash}
use roadassistapp_be.Ticket.{Ticket}
use roadassistapp_be.Payment.{
  Payment, balance, find_by_ticket, find_payment, guarded_payment, create_guarded, insert_guarded,
  build_doc,
}
use roadassistapp_be.Payment.World.{World, TicketRow, Config, find_ticket, resolve_payee_id}
use roadassistapp_be.Payment.Switch.{find_active}
use roadassistapp_be.Payment.Collect.{
  Fresh, open_payment, pending_deposit, check_payable, pay_amount, create_payment_for_ticket,
  payment_input, switch_or_open, deposit_first, answer_created,
}
use roadassistapp_be.Payment.Collect.Sound.{answer_created_store}

-- The payment that a request opens: pending, of the amount, with the platform's share at the rate
-- of the ticket's type and the rest for the payee.
abbrev pub opened_payment : Fresh → Config → Ticket → ℕ → PaymentMethod → ℕ → Payment
opened_payment fresh config t payee m amount =
    let rate = config.commission_rate t.ticket_type in
    let commission = round_div (amount * rate) 100 in
    record {
      id = fresh.id;
      ticket_id = t.id;
      rider_uid = t.user_id;
      payee_id = payee;
      amount = amount;
      method = m;
      status = pending;
      qr_ref = if is_cash m then none else some fresh.qr_ref;
      ipn_ref = none;
      commission_rate = some rate;
      commission_amount = some commission;
      payout_amount = some (sub_ℕ amount commission);
      confirmed_by = none;
      confirmed_at = none;
      refund_amount = none;
      refunded_at = none;
      refunded_by = none;
      payout_ref = none;
      payout_at = none;
      payout_by = none;
      payout_batch_id = none;
      purpose = balance;
      created_at = fresh.now;
    }

answer_created_new :
    (t : ℕ) (m : PaymentMethod) (p : Payment) (w : World)
    → (answer_created t m (record { payment = p; reused = false }) w).1
      ≡ ok
          (record { payment = p; checkout = if is_cash m then none else some p.id; reused = false })
answer_created_new t m p w = elim (Bool-cases (is_cash m)) [ inl e ↦ rw e refl | inr d ↦ rw d refl ]

open_payment_new :
    (fresh : Fresh) (config : Config) (t : Ticket) (m : PaymentMethod) (amount : ℕ) (w : World)
    {payee : ℕ}
    → resolve_payee_id t w.shops ≡ ok payee
    → guarded_payment t.id w.store ≡ none
    → (find_payment fresh.id (open_payment fresh config t m amount w).0.store
        ≡ some (opened_payment fresh config t payee m amount))
      × ((open_payment fresh config t m amount w).1
          ≡ ok (record {
            payment = opened_payment fresh config t payee m amount;
            checkout = if is_cash m then none else some fresh.id;
            reused = false;
          }))
unfolding open_payment create_guarded insert_guarded build_doc payment_input
open_payment_new fresh config t m amount w {payee} r idle =
    let input =
      payment_input t.id t.user_id payee m amount (config.commission_rate t.ticket_type) balance
        fresh.qr_ref in
    let p = build_doc fresh.id fresh.now input in
    let after = record w { store = insert_guarded fresh.id fresh.now input w.store } in
    let stored = answer_created_store t.id m (record { payment = p; reused = false }) after in
    let same : (fresh.id == fresh.id) ≡ true = (==_iff fresh.id fresh.id).1 refl in
    rw (r, open_payment, idle, create_guarded, stored, same)
      (refl, answer_created_new t.id m p after)

-- A request to pay the positive amount that is due, on a ticket with a payee whose guard names no
-- active payment, without a pending deposit or an active payment, stores a pending payment of that
-- amount under the fresh id and answers with it as new, with a checkout unless it is cash.
pub balance_opens :
    (cancel_order : Option ℕ → Option String) (fresh : Fresh) (config : Config) (user t : ℕ)
    (method : Option PaymentMethod) (w : World) {row : TicketRow} {m : PaymentMethod}
    {amount payee : ℕ}
    → find_ticket t w ≡ some row
    → check_payable user row.ticket method config ≡ ok (m, amount)
    → 0 < amount
    → pending_deposit (find_by_ticket row.ticket.id w.store.payments) ≡ none
    → find_active (find_by_ticket row.ticket.id w.store.payments) ≡ none
    → resolve_payee_id row.ticket w.shops ≡ ok payee
    → guarded_payment row.ticket.id w.store ≡ none
    → (find_payment fresh.id
          (create_payment_for_ticket cancel_order fresh config user t method w).0.store
        ≡ some (opened_payment fresh config row.ticket payee m amount))
      × ((create_payment_for_ticket cancel_order fresh config user t method w).1
          ≡ ok (record {
            payment = opened_payment fresh config row.ticket payee m amount;
            checkout = if is_cash m then none else some fresh.id;
            reused = false;
          }))
unfolding create_payment_for_ticket pay_amount
balance_opens cancel_order fresh config user t method w {row} {m} {amount} {payee} f c due
      no_pending no_active r idle =
    let unsettled : leb amount 0 ≡ false = ground (arith, due) in
    let opens = open_payment_new fresh config row.ticket m amount w r idle in
    rw
      (
        f, c, create_payment_for_ticket, pay_amount, unsettled, no_pending, deposit_first,
        no_active, switch_or_open,
      )
      opens
