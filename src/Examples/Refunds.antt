-- ===== src/Examples/Refunds.antt =====
-- Examples of the theorems on refunds and payouts: a payment of 100,000 that is held.
use roadassistapp_be.Base.{ℕ, ◌≤◌, ◌≡◌, ◌⊎◌, refl, true, false, none, some, [], arith, All}
use roadassistapp_be.Base.Store.{IsKeyed}
use roadassistapp_be.Refund.{
  RefundRequest, RefundWorld, find_open_by_payment, new_request, check_request, request_refund,
  write_request, decide_refund, is_payable, confirm_refund, approved,
}
use roadassistapp_be.Refund.Laws.{open_count, IsSingle}
use roadassistapp_be.Refund.Steps.{
  RefundSteps, IsFair, refund_steps_fair, requests, decides, done, then,
}
use roadassistapp_be.Refund.Confirm.{Closes, Refuses, confirm_refund_outcome}
use roadassistapp_be.Examples.Payments.{after, held_deposit}
use roadassistapp_be.Payment.World.{full_refunds}
use roadassistapp_be.Payment.{
  build_doc, guarded_payment, insert_guarded, create_guarded, find_by_ticket, find_by_qr_ref,
  update, update_status,
}
use roadassistapp_be.Payment.Settle.Refunds.{Refundable}
use roadassistapp_be.Payment.Guarded.{accounts, is_accounted, IsSound}
use roadassistapp_be.Commission.{entry_id, create_entry, find_by_payment}
use roadassistapp_be.Payment.World.{resolve_payee_id}
use roadassistapp_be.Payment.Switch.{find_active}
use roadassistapp_be.Payment.Collect.{check_payable, payment_input}
use roadassistapp_be.Bill.Amount.{
  shop_billable, billable_amount_for, deposit_credit_for, expected_amount_for,
}
use roadassistapp_be.Payment.Deposit.{open_deposit, create_deposit_payment, mark_deposit_confirmed}
use roadassistapp_be.Payment.Settle.{amount_of, hold_now, handle_sepay_ipn}

-- The rider asks for the refund of the deposit, and an admin approves it.
abbrev start : RefundWorld
start = record { world = after; refunds = [] }

abbrev wanted : RefundWorld
wanted = (request_refund full_refunds 60 3000 31 1 (some false) none false start).0

abbrev granted : RefundWorld
granted = (decide_refund 8 3100 60 true wanted).0

both_refund_steps : RefundSteps start granted
unfolding find_by_ticket find_active resolve_payee_id guarded_payment check_payable
    expected_amount_for billable_amount_for shop_billable deposit_credit_for create_deposit_payment
    open_deposit handle_sepay_ipn hold_now update_status update find_by_qr_ref
    mark_deposit_confirmed create_guarded insert_guarded build_doc payment_input accounts open_count
    request_refund check_request find_open_by_payment new_request decide_refund write_request
both_refund_steps =
    then start wanted granted
      (requests full_refunds 60 3000 31 1 (some false) none false start refl)
      (then wanted granted granted (decides 8 3100 60 true wanted) (done granted))

refund_steps_fair_example :
    (open_count 31 granted.refunds ≤ 1)
    × All (λ p. is_accounted p ≡ true) granted.world.store.payments
unfolding find_by_ticket find_active resolve_payee_id guarded_payment check_payable
    expected_amount_for billable_amount_for shop_billable deposit_credit_for create_deposit_payment
    open_deposit handle_sepay_ipn hold_now update_status update find_by_qr_ref
    mark_deposit_confirmed create_guarded insert_guarded build_doc payment_input accounts open_count
    request_refund check_request find_open_by_payment new_request decide_refund write_request IsFair
    IsSingle IsSound IsKeyed
refund_steps_fair_example =
    refund_steps_fair start granted 31
      ((tt, λ p. omega arith), ((refl, tt), ((refl, tt), (refl, tt)))) both_refund_steps

abbrev request : RefundRequest
request = record (new_request 60 3000 1 false held_deposit 100000) {
  status = approved;
  decided_at = some 3100;
  decided_by = some 8;
}

-- The commission of 10,000 on the deposit is on the ledger.
abbrev charged : RefundWorld
charged = record granted {
  world = record (granted.world) { commissions = create_entry 1 100 9 7 31 10000 [] };
}

charged_ids : IsKeyed entry_id charged.world.commissions
unfolding create_entry find_by_payment IsKeyed
charged_ids = (refl, tt)

confirm_refund_outcome_example :
    ((total : ℕ) × (is_payable approved ≡ true)
      × Refundable full_refunds (amount_of 100000) held_deposit total
      × Closes total 8 3200
          (some 900)
          request
          held_deposit
          charged.world.commissions
          (confirm_refund full_refunds 8 3200 60 (some 900) charged))
    ⊎ (((is_payable approved ≡ false)
          ⊎ (¬ ((total : ℕ) × Refundable full_refunds (amount_of 100000) held_deposit total)))
        × Refuses charged (confirm_refund full_refunds 8 3200 60 (some 900) charged))
unfolding find_by_ticket find_active resolve_payee_id guarded_payment check_payable
    expected_amount_for billable_amount_for shop_billable deposit_credit_for create_deposit_payment
    open_deposit handle_sepay_ipn hold_now update_status update find_by_qr_ref
    mark_deposit_confirmed create_guarded insert_guarded build_doc payment_input accounts open_count
    request_refund check_request find_open_by_payment new_request decide_refund write_request
confirm_refund_outcome_example =
    confirm_refund_outcome full_refunds 8 3200 60 (some 900) charged {r = request}
      {p = held_deposit} refl refl charged_ids
