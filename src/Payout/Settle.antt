-- ===== src/Payout/Settle.antt =====
-- `settleBatch` of service/payoutService.ts, and `applySettlement` of
-- repository/payoutRepository.ts, the transaction that pays a batch.
use roadassistapp_be.Base.{
  ℕ, min, not, ◌||◌, Option, none, some, List, [], ◌∷◌, leb, ◌==◌, if◌then◌else◌, is_some,
}
use roadassistapp_be.Base.Result.{
  Result, ◌>>=◌, ◌>>◌, throw_if, require, validation, not_found, internal, ok, err,
}
use roadassistapp_be.Base.Store.{get_row}
use roadassistapp_be.Payout.{
  Payout, payout_id, payee_id, PayoutWorld, is_settleable, Summary, summary_for, settleable_for,
}
use roadassistapp_be.PaymentStatus.{is_received}
use roadassistapp_be.Commission.{
  CommissionEntry, entry_id, is_owed, owed_total_by_payee, SettlementUpdate, plan_settlement,
  apply_updates,
}
use roadassistapp_be.Payment.{Payment, Store, find_payment, update}

abbrev pub check_listed : ℕ → Option Payment → Result Payment
check_listed payee none = err (not_found "Payment not found")
check_listed payee (some p) =
    throw_if (not (p.payee_id == payee)) (validation "Payment belongs to another payee")
    >> require (is_settleable p) (validation "Payment is not settleable")
    >> ok p

-- The payments that an admin lists, in the order of the list.
unfoldable pub listed_payments : ℕ → List ℕ → Store → Result (List Payment)
listed_payments payee [] s = ok []
listed_payments payee (id ∷ ids) s = check_listed payee (find_payment id s) >>= λ p.
    listed_payments payee ids s >>= λ rest. ok (p ∷ rest)

abbrev pub chosen_payments : ℕ → List ℕ → Store → Result (List Payment)
chosen_payments payee [] s = ok (settleable_for payee s)
chosen_payments payee (id ∷ ids) s = listed_payments payee (id ∷ ids) s

pub record PaymentStamp : Type 0 where
  pub payout_ref : ℕ
  pub payout_at : ℕ
  pub payout_by : ℕ
  pub payout_batch_id : ℕ

abbrev pub stamp_payout : PaymentStamp → Payment → Payment
stamp_payout st p = record p {
  payout_ref = some st.payout_ref;
  payout_at = some st.payout_at;
  payout_by = some st.payout_by;
  payout_batch_id = some st.payout_batch_id;
}

abbrev pub check_stamped : Option Payment → Result (Unit {0})
check_stamped none = err (internal "Payment not found")
check_stamped (some p) =
    throw_if (is_some p.payout_at || is_some p.payout_batch_id) (internal "Payment already settled")
    >> require (is_received p.status) (internal "Payment is not settleable")

unfoldable pub check_stamps : List ℕ → Store → Result (Unit {0})
check_stamps [] s = ok tt
check_stamps (id ∷ ids) s = check_stamped (find_payment id s) >> check_stamps ids s

abbrev pub check_entry : Option CommissionEntry → Result (Unit {0})
check_entry none = err (internal "Commission entry not found")
check_entry (some e) = require (is_owed e.status) (internal "Commission entry is not open")

unfoldable pub check_entries : List SettlementUpdate → List CommissionEntry → Result (Unit {0})
check_entries [] ledger = ok tt
check_entries (u ∷ us) ledger =
    check_entry (get_row entry_id u.entry ledger) >> check_entries us ledger

unfoldable pub stamp_all : PaymentStamp → List ℕ → Store → Store
unfolding update
stamp_all st [] s = s
stamp_all st (id ∷ ids) s = stamp_all st ids (update id (stamp_payout st) s)

abbrev pub batch_exists : Option Payout → Result (Unit {0})
batch_exists none = ok tt
batch_exists (some b) = err (internal "Payout batch already exists")

-- `applySettlement`: one transaction, which writes all or nothing.
unfoldable pub apply_settlement :
    Payout → PaymentStamp → List SettlementUpdate → PayoutWorld → PayoutWorld × Result Payout
unfolding check_stamps check_entries stamp_all apply_updates
apply_settlement b st us w =
    elim (batch_exists (get_row payout_id b.id w.batches)
      >> check_stamps b.payment_ids w.store
      >> check_entries us w.ledger) [
        | err e ↦ (w, err e)
        | ok u ↦ (
          record w {
            store = stamp_all st b.payment_ids w.store;
            ledger = apply_updates us w.ledger;
            batches = b ∷ w.batches;
          },
          ok b,
        )
      ]

-- The plan of `settleBatch`, which is empty when nothing is deducted.
unfoldable pub batch_plan : ℕ → ℕ → ℕ → List CommissionEntry → List SettlementUpdate
batch_plan payee deducted batch ledger =
    if leb deducted 0 then [] else (plan_settlement payee deducted batch ledger).0

-- A request's names and time: the batch's document id, and the reference of the transfer.
pub record PayoutFresh : Type 0 where
  pub id : ℕ
  pub ref : ℕ
  pub now : ℕ

unfoldable pub new_batch : PayoutFresh → ℕ → ℕ → Summary → ℕ → Payout
new_batch fresh admin payee s deducted = record {
  id = fresh.id;
  payee_id = payee;
  gross = s.gross;
  commission = s.commission;
  refunded = s.refunded;
  net = s.net;
  commission_deducted = deducted;
  item_count = s.item_count;
  payment_ids = s.payment_ids;
  ticket_ids = s.ticket_ids;
  payout_ref = fresh.ref;
  batched_uid = admin;
  created_at = fresh.now;
}

abbrev pub batch_stamp : PayoutFresh → ℕ → PaymentStamp
batch_stamp fresh admin = record {
  payout_ref = fresh.ref;
  payout_at = fresh.now;
  payout_by = admin;
  payout_batch_id = fresh.id;
}

-- `settleBatch` once its payments are chosen.
unfoldable pub settle_chosen :
    PayoutFresh → ℕ → ℕ → List Payment → PayoutWorld → PayoutWorld × Result Payout
unfolding summary_for new_batch batch_plan apply_settlement owed_total_by_payee
settle_chosen fresh admin payee [] w = (w, err (validation "No payments to settle for this payee"))
settle_chosen fresh admin payee (p ∷ rows) w =
    let s = summary_for (p ∷ rows) in
    let deducted = min (owed_total_by_payee payee w.ledger) s.net in
    apply_settlement (new_batch fresh admin payee s deducted) (batch_stamp fresh admin)
      (batch_plan payee deducted fresh.id w.ledger) w

-- `settleBatch`
unfoldable pub settle_batch :
    PayoutFresh → ℕ → ℕ → List ℕ → PayoutWorld → PayoutWorld × Result Payout
unfolding listed_payments settleable_for settle_chosen
settle_batch fresh admin payee ids w = elim (get_row payee_id payee w.payees) [
  | none ↦ (w, err (not_found "Payee not found"))
  | some u ↦ elim (chosen_payments payee ids w.store) [
    | err e ↦ (w, err e)
    | ok payments ↦ settle_chosen fresh admin payee payments w
  ]
]
