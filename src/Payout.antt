-- ===== src/Payout.antt =====
-- service/payoutService.ts and repository/payoutRepository.ts: what a payee is still owed for
-- received payments is paid out in batches, less the commission that the payee owes for cash. The
-- bank details and the texts that are only stored are left out.
pub mod Settle
pub mod Requests
pub mod Laws
pub mod Asked
use roadassistapp_be.Base.{
  ℕ, ◌+◌, ◌-◌, Bool, false, not, ◌&&◌, ◌||◌, Option, List, [], ◌∷◌, leb, ◌==◌, if◌then◌else◌,
  or_else, is_none,
}
use roadassistapp_be.Base.Int.{pos_part, sub_ℕ, ◌-ℤ◌, pos}
use roadassistapp_be.PaymentStatus.{is_received}
use roadassistapp_be.Commission.{CommissionEntry}
use roadassistapp_be.Payment.{is_subscription, Payment, Store}

-- A document of PAYOUT_COLLECTION, as `applySettlement` writes it: it has no `netPayout`.
pub record Payout : Type 0 where
  pub id : ℕ
  pub payee_id : ℕ
  pub gross : ℕ
  pub commission : ℕ
  pub refunded : ℕ
  pub net : ℕ
  pub commission_deducted : ℕ
  pub item_count : ℕ
  pub payment_ids : List ℕ
  pub ticket_ids : List ℕ
  pub payout_ref : ℕ
  pub batched_uid : ℕ
  pub created_at : ℕ

abbrev pub payout_id : Payout → ℕ
payout_id b = b.id

-- PAYOUT_REQUEST_STATUS
pub data PayoutRequestStatus : Type 0 where
  waiting paid_out rejected_request cancelled_request : PayoutRequestStatus

pub record PayoutRequest : Type 0 where
  pub id : ℕ
  pub payee_id : ℕ
  pub amount : ℕ
  pub status : PayoutRequestStatus
  pub requested_at : ℕ
  pub decided_by : Option ℕ
  pub payout_batch_id : Option ℕ

abbrev pub payout_request_id : PayoutRequest → ℕ
payout_request_id r = r.id

-- A user with whether a payout account is on file (`accountOf`).
pub record Payee : Type 0 where
  pub id : ℕ
  pub has_account : Bool

abbrev pub payee_id : Payee → ℕ
payee_id u = u.id

pub record PayoutWorld : Type 0 where
  pub store : Store
  pub ledger : List CommissionEntry
  pub batches : List Payout
  pub payout_requests : List PayoutRequest
  pub payees : List Payee

-- `isSettleable`
abbrev pub is_settleable : Payment → Bool
is_settleable p =
    not (is_subscription p.purpose)
    && is_received p.status
    && is_none p.payout_at
    && is_none p.payout_batch_id

-- `netFor`
abbrev pub net_for : Payment → ℕ
net_for p =
    let commission : ℕ = or_else p.commission_amount 0 in
    pos_part
      (or_else p.payout_amount (sub_ℕ p.amount commission) -ℤ pos (or_else p.refund_amount 0))

pub record Summary : Type 0 where
  pub gross : ℕ
  pub commission : ℕ
  pub refunded : ℕ
  pub net : ℕ
  pub item_count : ℕ
  pub payment_ids : List ℕ
  pub ticket_ids : List ℕ

abbrev mem : ℕ → List ℕ → Bool
mem a [] = false
mem a (b ∷ bs) = a == b || mem a bs

-- The ticket ids of `summaryFor`: each once, in the order in which they come.
unfoldable pub ticket_ids_of : List ℕ → List Payment → List ℕ
ticket_ids_of seen [] = []
ticket_ids_of seen (p ∷ rows) =
    let next = ticket_ids_of (p.ticket_id ∷ seen) rows in
    let same = ticket_ids_of seen rows in if mem p.ticket_id seen then same else p.ticket_id ∷ next

abbrev add_payment : Payment → Summary → Summary
add_payment p s = record s {
  gross = p.amount + s.gross;
  commission = or_else p.commission_amount 0 + s.commission;
  refunded = or_else p.refund_amount 0 + s.refunded;
  net = net_for p + s.net;
  item_count = 1 + s.item_count;
  payment_ids = p.id ∷ s.payment_ids;
}

unfoldable pub sum_payments : List Payment → Summary
sum_payments [] = record {
  gross = 0;
  commission = 0;
  refunded = 0;
  net = 0;
  item_count = 0;
  payment_ids = [];
  ticket_ids = [];
}
sum_payments (p ∷ rows) = add_payment p (sum_payments rows)

-- `summaryFor`
unfoldable pub summary_for : List Payment → Summary
unfolding sum_payments ticket_ids_of
summary_for rows = record (sum_payments rows) { ticket_ids = ticket_ids_of [] rows }

-- PAYMENT_SETTLE_SCAN
abbrev pub payment_settle_scan : ℕ
payment_settle_scan = 500

-- `findByPayeeStatuses` with PAYMENT_RECEIVED_STATUSES: no more than so many rows.
unfoldable pub find_received_by_payee : ℕ → ℕ → List Payment → List Payment
find_received_by_payee payee limit [] = []
find_received_by_payee payee limit (p ∷ rows) =
    let counted = find_received_by_payee payee (limit - 1) rows in
    let passed = find_received_by_payee payee limit rows in
    if p.payee_id == payee && is_received p.status
    then (if leb limit 0 then [] else p ∷ counted)
    else passed

unfoldable pub filter_settleable : List Payment → List Payment
filter_settleable [] = []
filter_settleable (p ∷ rows) =
    let rest = filter_settleable rows in if is_settleable p then p ∷ rest else rest

-- `settleableFor`
unfoldable pub settleable_for : ℕ → Store → List Payment
unfolding find_received_by_payee filter_settleable
settleable_for payee s =
    filter_settleable (find_received_by_payee payee payment_settle_scan s.payments)
