-- ===== src/Examples/Payments.antt =====
-- Examples of the theorems on payments.
use roadassistapp_be.Base.{
  false, or_else, ◌≤◌, ℕ, ◌≡◌, ◌↔◌, refl, Bool, true, none, some, [], ◌∷◌, arith, Option, String,
}
use roadassistapp_be.Base.Result.{ok, err, conflict}
use roadassistapp_be.Base.Store.{IsKeyed}
use roadassistapp_be.PaymentStatus.{PaymentMethod, cash, sepay, held}
use roadassistapp_be.Status.{TicketType}
use roadassistapp_be.Bill.Amount.{
  expected_amount_for, billable_amount_for, shop_billable, deposit_credit_for,
}
use roadassistapp_be.Payment.{
  Payment, deposit, create_guarded, guarded_payment, insert_guarded, build_doc, find_payment,
  find_by_ticket, find_by_qr_ref, update, update_status,
}
use roadassistapp_be.Payment.Guarded.{IsSound, is_accounted}
use roadassistapp_be.Payment.World.{
  World, Config, TicketRow, full_refunds, partial_refunds, resolve_payee_id,
}
use roadassistapp_be.Payment.Switch.{find_active}
use roadassistapp_be.Payment.Collect.{
  Fresh, payment_input, check_payable, create_payment_for_ticket,
}
use roadassistapp_be.Payment.Collect.Opens.{balance_opens, opened_payment}
use roadassistapp_be.Payment.Collect.Shadow.{balance_shadowed}
use roadassistapp_be.Payment.Deposit.{open_deposit, create_deposit_payment, mark_deposit_confirmed}
use roadassistapp_be.Payment.Settle.{
  Ipn, whole, amount_of, hold_now, handle_sepay_ipn, check_refund, refund,
}
use roadassistapp_be.Payment.Settle.Refunds.{
  check_refund_iff, refund_writes, IsRefunded, Refundable,
}
use roadassistapp_be.Payment.Steps.{
  steps_one_live, steps_accounted, Steps, deposits, notifies, then, done,
}
use roadassistapp_be.Examples.Samples.{deposit_ticket}

abbrev every : PaymentMethod → Bool
every m = true

abbrev ten_percent : TicketType → ℕ
ten_percent t = 10

abbrev config : Config
config = record { enabled = every; commission_rate = ten_percent; refund_policy = full_refunds }

-- The ticket of the samples before its deposit of 100,000 is asked for.
abbrev asked_row : TicketRow
asked_row = record {
  ticket = record deposit_ticket { deposit_status = none };
  payment_id = none;
  payment_method = none;
  payment_status = none;
  checkout_url = none;
  deposit_payment_id = none;
  booking_id = none;
}

abbrev before : World
before = record {
  store = record { payments = []; guards = [] };
  tickets = asked_row ∷ [];
  shops = record { id = 20; operator_uid = some 9 } ∷ [];
  commissions = [];
  confirmed_bookings = [];
  activated = [];
}

-- The rider asks to pay the deposit, and SePay notifies that it is paid.
abbrev opened : World
opened =
    (create_deposit_payment (record { id = 31; qr_ref = 500; now = 1000 }) config 1 7 (some sepay)
      before).0

abbrev ipn : Ipn
ipn = record {
  authorized = true;
  is_paid = true;
  qr_ref = some 500;
  amount = some 100000;
  ipn_ref = some 77;
}

abbrev pub after : World
after = (handle_sepay_ipn ipn opened).0

abbrev fresh : Fresh
fresh = record { id = 32; qr_ref = 501; now = 2000 }

abbrev sepay_agrees : Option ℕ → Option String
sepay_agrees r = none

balance_shadowed_example :
    create_payment_for_ticket sepay_agrees fresh config 1 7 (some cash) after
    ≡ (after, err (conflict "Ticket already has an active payment"))
unfolding find_by_ticket find_active resolve_payee_id guarded_payment check_payable
    expected_amount_for billable_amount_for shop_billable deposit_credit_for create_deposit_payment
    open_deposit handle_sepay_ipn hold_now update_status update find_by_qr_ref
    mark_deposit_confirmed create_guarded insert_guarded build_doc payment_input
balance_shadowed_example =
    balance_shadowed sepay_agrees fresh config 1 7 (some cash) after refl refl (omega arith) refl
      refl refl refl refl

abbrev deposit_id : ℕ
deposit_id = 31

-- The deposit after both requests.
abbrev pub held_deposit : Payment
held_deposit = record (build_doc 31 1000 (payment_input 7 1 9 sepay 100000 10 deposit 500)) {
  status = held;
  ipn_ref = some 77;
}

both_requests : Steps before after
unfolding find_by_ticket find_active resolve_payee_id guarded_payment check_payable
    expected_amount_for billable_amount_for shop_billable deposit_credit_for create_deposit_payment
    open_deposit handle_sepay_ipn hold_now update_status update find_by_qr_ref
    mark_deposit_confirmed create_guarded insert_guarded build_doc payment_input
both_requests =
    then before opened after
      (deposits (record { id = 31; qr_ref = 500; now = 1000 }) config 1 7 (some sepay) before refl)
      (then opened after after (notifies ipn opened) (done after))

steps_one_live_example : deposit_id ≡ deposit_id
unfolding find_by_ticket find_active resolve_payee_id guarded_payment check_payable
    expected_amount_for billable_amount_for shop_billable deposit_credit_for create_deposit_payment
    open_deposit handle_sepay_ipn hold_now update_status update find_by_qr_ref
    mark_deposit_confirmed create_guarded insert_guarded build_doc payment_input IsSound IsKeyed
steps_one_live_example =
    steps_one_live before after deposit_id deposit_id {p = held_deposit} {q = held_deposit}
      (tt, (tt, tt)) both_requests refl refl refl refl refl

steps_accounted_example :
    (is_accounted held_deposit ≡ true)
    × (or_else held_deposit.refund_amount 0 ≤ held_deposit.amount)
unfolding find_by_ticket find_active resolve_payee_id guarded_payment check_payable
    expected_amount_for billable_amount_for shop_billable deposit_credit_for create_deposit_payment
    open_deposit handle_sepay_ipn hold_now update_status update find_by_qr_ref
    mark_deposit_confirmed create_guarded insert_guarded build_doc payment_input IsSound IsKeyed
steps_accounted_example =
    steps_accounted before after deposit_id {p = held_deposit} (tt, (tt, tt)) both_requests refl

-- 30,000 of the deposit go back.
check_refund_iff_example :
    (check_refund partial_refunds (amount_of 30000) held_deposit ≡ ok 30000)
    ↔ Refundable partial_refunds (amount_of 30000) held_deposit 30000
check_refund_iff_example = check_refund_iff partial_refunds (amount_of 30000) held_deposit 30000

refund_writes_example :
    (q : Payment) × IsRefunded 100000 (some 8) 3000 held_deposit q
    × (find_payment 31 (refund full_refunds whole (some 8) 3000 31 after).0.store ≡ some q)
    × ((refund full_refunds whole (some 8) 3000 31 after).1 ≡ ok (some q))
unfolding find_by_ticket find_active resolve_payee_id guarded_payment check_payable
    expected_amount_for billable_amount_for shop_billable deposit_credit_for create_deposit_payment
    open_deposit handle_sepay_ipn hold_now update_status update find_by_qr_ref
    mark_deposit_confirmed create_guarded insert_guarded build_doc payment_input
refund_writes_example =
    refund_writes full_refunds whole (some 8) 3000 31 after {total = 100000} refl
      (refl, refl, omega arith, omega arith, omega arith, refl)

-- Before any payment the whole quote of 500,000 is due.
balance_opens_example :
    (find_payment 32
        (create_payment_for_ticket sepay_agrees fresh config 1 7 (some cash) before).0.store
      ≡ some (opened_payment fresh config asked_row.ticket 9 cash 500000))
    × ((create_payment_for_ticket sepay_agrees fresh config 1 7 (some cash) before).1
        ≡ ok (record {
          payment = opened_payment fresh config asked_row.ticket 9 cash 500000;
          checkout = none;
          reused = false;
        }))
unfolding find_by_ticket find_active resolve_payee_id guarded_payment check_payable
    expected_amount_for billable_amount_for shop_billable deposit_credit_for
balance_opens_example =
    balance_opens sepay_agrees fresh config 1 7 (some cash) before {amount = 500000} {payee = 9}
      refl refl (omega arith) refl refl refl refl
