-- ===== src/Examples/Payouts.antt =====
-- Examples of the theorems on payouts.
use roadassistapp_be.Base.Int.{◌-ℤ◌}
use roadassistapp_be.Base.{◌+◌, ◌≡◌, refl, ◌↔◌, true, [], ◌∷◌}
use roadassistapp_be.Base.Result.{ok}
use roadassistapp_be.Payout.{
  Payout, PayoutWorld, ticket_ids_of, sum_payments, summary_for, find_received_by_payee,
  filter_settleable, settleable_for,
}
use roadassistapp_be.Payout.Settle.{
  listed_payments, check_stamps, check_entries, stamp_all, apply_settlement, batch_plan,
  PayoutFresh, new_batch, settle_chosen, settle_batch,
}
use roadassistapp_be.Payout.Requests.{request_payout}
use roadassistapp_be.Payout.Laws.{settle_batch_twice}
use roadassistapp_be.Payout.Asked.{MayAsk, Files, request_payout_filed}
use roadassistapp_be.Examples.Payments.{held_deposit}
use roadassistapp_be.Payment.{build_doc}
use roadassistapp_be.Payment.Collect.{payment_input}
use roadassistapp_be.Commission.{
  find_by_payment, create_entry, owed_total_by_payee, plan_settlement,
}

-- The payee 9 is owed for a deposit of 100,000, and owes 10,000 of commission on a payment in cash.
abbrev payout_world : PayoutWorld
payout_world = record {
  store = record { payments = held_deposit ∷ []; guards = [] };
  ledger = create_entry 1 100 9 7 30 10000 [];
  batches = [];
  payout_requests = [];
  payees = record { id = 9; has_account = true } ∷ [];
}

abbrev pay_now : PayoutFresh
pay_now = record { id = 70; ref = 700; now = 5000 }

abbrev paid_batch : Payout
paid_batch = record {
  id = 70;
  payee_id = 9;
  gross = 100000;
  commission = 10000;
  refunded = 0;
  net = 90000;
  commission_deducted = 10000;
  item_count = 1;
  payment_ids = 31 ∷ [];
  ticket_ids = 7 ∷ [];
  payout_ref = 700;
  batched_uid = 8;
  created_at = 5000;
}

request_payout_filed_example :
    Files 9 50000 [] (request_payout 80 4000 9 50000 payout_world) ↔ MayAsk 9 50000 payout_world
request_payout_filed_example = request_payout_filed 80 4000 9 50000 payout_world

abbrev free_world : PayoutWorld
free_world = record payout_world { ledger = [] }

settle_batch_twice_example :
    (b : Payout) × ((settle_batch pay_now 8 9 (31 ∷ 31 ∷ []) free_world).1 ≡ ok b)
    × (b.net ≡ 90000 + 90000)
unfolding ◌-ℤ◌ build_doc payment_input create_entry find_by_payment settle_batch listed_payments
    settleable_for settle_chosen summary_for sum_payments ticket_ids_of new_batch check_stamps
    check_entries stamp_all batch_plan apply_settlement owed_total_by_payee plan_settlement
    find_received_by_payee filter_settleable
settle_batch_twice_example =
    settle_batch_twice pay_now 8 9 31 free_world {p = held_deposit} refl refl refl refl refl refl
