-- ===== src/Examples/Commissions.antt =====
-- Examples of the theorems on the commission ledger.
use roadassistapp_be.Base.{none, ◌≡◌, [], List}
use roadassistapp_be.Commission.{
  apply_updates, owed, CommissionEntry, create_entry, plan_settlement, settle_against,
}
use roadassistapp_be.Commission.Laws.{settle_against-plan_settlement}

-- Payee 9 owes 30,000 for one payment and 20,000 for another.
abbrev ledger : List CommissionEntry
ledger = create_entry 2 200 9 8 32 20000 (create_entry 1 100 9 7 31 30000 [])

settle_against-plan_settlement_example : settle_against 9 40000 5 ledger ≡ (
  apply_updates (plan_settlement 9 40000 5 ledger).0 ledger,
  (plan_settlement 9 40000 5 ledger).1,
)
settle_against-plan_settlement_example = settle_against-plan_settlement 9 40000 5 ledger

-- Half of the second payment is refunded.
abbrev second_entry : CommissionEntry
second_entry = record {
  id = 2;
  payee_id = 9;
  ticket_id = 8;
  payment_id = 32;
  amount = 20000;
  settled_amount = 0;
  reversed_amount = 0;
  status = owed;
  created_at = 200;
  payout_batch_id = none;
}
