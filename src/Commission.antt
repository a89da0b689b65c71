-- ===== src/Commission.antt =====
-- repository/commissionRepository.ts: what a payee owes the platform for cash that it received.
pub mod Laws
pub mod Reversal
use roadassistapp_be.Base.{
  ℕ, ◌+◌, ◌-◌, ◌*◌, ◌==◌, min, Bool, true, false, ◌&&◌, ◌||◌, Option, none, some, List, [], ◌∷◌,
  if◌then◌else◌, leb, find,
}
use roadassistapp_be.Base.Int.{round_div}
use roadassistapp_be.Base.Store.{update_row}

-- COMMISSION_STATUS
pub data CommissionStatus : Type 0 where
  owed settled : CommissionStatus

pub record CommissionEntry : Type 0 where
  pub id : ℕ
  pub payee_id : ℕ
  pub ticket_id : ℕ
  pub payment_id : ℕ
  pub amount : ℕ
  pub settled_amount : ℕ
  pub reversed_amount : ℕ
  pub status : CommissionStatus
  pub created_at : ℕ
  pub payout_batch_id : Option ℕ

abbrev pub entry_id : CommissionEntry → ℕ
entry_id e = e.id

-- `findByPaymentId`
unfoldable pub find_by_payment : ℕ → List CommissionEntry → Option CommissionEntry
find_by_payment payment_id rows = find (λ e. e.payment_id == payment_id) rows

-- `create`: a second entry for a payment is not written.
unfoldable pub create_entry : ℕ → ℕ → ℕ → ℕ → ℕ → ℕ → List CommissionEntry → List CommissionEntry
unfolding find_by_payment
create_entry id now payee_id ticket_id payment_id amount rows =
    elim (find_by_payment payment_id rows) [
      | some old ↦ rows
      | none ↦
          record {
            id = id;
            payee_id = payee_id;
            ticket_id = ticket_id;
            payment_id = payment_id;
            amount = amount;
            settled_amount = 0;
            reversed_amount = 0;
            status = owed;
            created_at = now;
            payout_batch_id = none;
          }
          ∷ rows
    ]

abbrev pub is_owed : CommissionStatus → Bool
is_owed owed = true
is_owed settled = false

-- `rows.sort((a, b) => (a.createdAt < b.createdAt ? -1 : 1))`, by insertion; rows of the same time
-- keep their order.
insert_oldest : CommissionEntry → List CommissionEntry → List CommissionEntry
insert_oldest e [] = e ∷ []
insert_oldest e (r ∷ rows) =
    let rest = insert_oldest e rows in
    if leb e.created_at r.created_at then e ∷ r ∷ rows else r ∷ rest

-- `findOwedByPayee`: the payee's open entries, the oldest first.
unfoldable pub find_owed_by_payee : ℕ → List CommissionEntry → List CommissionEntry
unfolding insert_oldest
find_owed_by_payee payee [] = []
find_owed_by_payee payee (e ∷ rows) =
    let rest = find_owed_by_payee payee rows in
    if e.payee_id == payee && is_owed e.status then insert_oldest e rest else rest

-- `openAmountOf`
abbrev pub open_amount_of : CommissionEntry → ℕ
open_amount_of e = e.amount - e.settled_amount - e.reversed_amount

sum_open : List CommissionEntry → ℕ
sum_open [] = 0
sum_open (e ∷ rows) = open_amount_of e + sum_open rows

-- `owedTotalByPayee`
unfoldable pub owed_total_by_payee : ℕ → List CommissionEntry → ℕ
unfolding sum_open find_owed_by_payee
owed_total_by_payee payee rows = sum_open (find_owed_by_payee payee rows)

-- An update of `planSettlement`.
pub record SettlementUpdate : Type 0 where
  pub entry : ℕ
  pub settled_amount : ℕ
  pub status : CommissionStatus
  pub payout_batch_id : ℕ

settlement : ℕ → CommissionEntry → ℕ → SettlementUpdate
settlement batch e applied =
    let next = e.settled_amount + applied in
    record {
      entry = e.id;
      settled_amount = next;
      status = if leb e.amount (next + e.reversed_amount) then settled else owed;
      payout_batch_id = batch;
    }

-- The loop of `planSettlement`: the updates, and how much they settle.
plan_rows : ℕ → List CommissionEntry → ℕ → List SettlementUpdate × ℕ
unfolding settlement
plan_rows batch [] remaining = ([], 0)
plan_rows batch (e ∷ rows) remaining =
    let applied = min (open_amount_of e) remaining in
    let rest = plan_rows batch rows (remaining - applied) in
    if leb remaining 0
    then ([], 0)
    else if leb (open_amount_of e) 0
    then rest
    else (settlement batch e applied ∷ rest.0, applied + rest.1)

-- `planSettlement`
unfoldable pub plan_settlement : ℕ → ℕ → ℕ → List CommissionEntry → List SettlementUpdate × ℕ
unfolding plan_rows find_owed_by_payee
plan_settlement payee amount batch rows =
    if leb amount 0 then ([], 0) else plan_rows batch (find_owed_by_payee payee rows) amount

abbrev write_settlement : SettlementUpdate → CommissionEntry → CommissionEntry
write_settlement u e = record e {
  settled_amount = u.settled_amount;
  status = u.status;
  payout_batch_id = some u.payout_batch_id;
}

-- The writes of a plan, one after the other.
unfoldable pub apply_updates : List SettlementUpdate → List CommissionEntry → List CommissionEntry
apply_updates [] ledger = ledger
apply_updates (u ∷ us) ledger =
    apply_updates us (update_row entry_id u.entry (write_settlement u) ledger)

-- The loop of `settleAgainst`, which writes each update at once.
settle_rows : ℕ → List CommissionEntry → ℕ → List CommissionEntry → List CommissionEntry × ℕ
unfolding settlement
settle_rows batch [] remaining ledger = (ledger, 0)
settle_rows batch (e ∷ rows) remaining ledger =
    let applied = min (open_amount_of e) remaining in
    let u = settlement batch e applied in
    let skipped = settle_rows batch rows (remaining - applied) ledger in
    let written =
      settle_rows batch rows (remaining - applied)
        (update_row entry_id e.id (write_settlement u) ledger) in
    if leb remaining 0
    then (ledger, 0)
    else if leb (open_amount_of e) 0
    then skipped
    else (written.0, applied + written.1)

-- `settleAgainst`
unfoldable pub settle_against : ℕ → ℕ → ℕ → List CommissionEntry → List CommissionEntry × ℕ
unfolding settle_rows find_owed_by_payee
settle_against payee amount batch ledger =
    if leb amount 0
    then (ledger, 0)
    else settle_rows batch (find_owed_by_payee payee ledger) amount ledger

abbrev pay_open : CommissionEntry → CommissionEntry → CommissionEntry
pay_open e r = record r { settled_amount = e.settled_amount + open_amount_of e; status = settled }

-- The loop of `settleDirect`: each open entry is settled in full.
settle_open : List CommissionEntry → List CommissionEntry → List CommissionEntry × ℕ
settle_open [] ledger = (ledger, 0)
settle_open (e ∷ rows) ledger =
    let skipped = settle_open rows ledger in
    let written = settle_open rows (update_row entry_id e.id (pay_open e) ledger) in
    if leb (open_amount_of e) 0 then skipped else (written.0, open_amount_of e + written.1)

-- `settleDirect`
unfoldable pub settle_direct : ℕ → List CommissionEntry → List CommissionEntry × ℕ
unfolding settle_open find_owed_by_payee
settle_direct payee ledger = settle_open (find_owed_by_payee payee ledger) ledger

-- How much of an entry `reverseForRefund` gives back.
abbrev pub reversal : CommissionEntry → ℕ → ℕ → ℕ
reversal e refund_amount payment_amount =
    if leb (open_amount_of e) 0 || (leb payment_amount 0 || leb refund_amount 0)
    then 0
    else min (open_amount_of e) (round_div (e.amount * refund_amount) payment_amount)

reverse_entry : CommissionEntry → ℕ → List CommissionEntry → List CommissionEntry × ℕ
reverse_entry e share ledger = if leb share 0 then (ledger, 0) else (
  update_row entry_id e.id (λ r. record r { reversed_amount = e.reversed_amount + share }) ledger,
  share,
)

-- `reverseForRefund`
unfoldable pub reverse_for_refund : ℕ → ℕ → ℕ → List CommissionEntry → List CommissionEntry × ℕ
unfolding reverse_entry find_by_payment
reverse_for_refund payment_id refund_amount payment_amount ledger =
    elim (find_by_payment payment_id ledger) [
      | none ↦ (ledger, 0)
      | some e ↦ reverse_entry e (reversal e refund_amount payment_amount) ledger
    ]
