-- ===== src/Payout/Requests.antt =====
-- The payout requests of payees, in service/payoutService.ts and repository/payoutRepository.ts.
use roadassistapp_be.Base.{
  ℕ, ◌+◌, ◌-◌, Bool, true, false, not, ◌&&◌, Option, none, some, List, [], ◌∷◌, ltb, leb, ◌==◌,
  if◌then◌else◌,
}
use roadassistapp_be.Base.Result.{Result, ◌>>◌, throw_if, require, validation, not_found, ok, err}
use roadassistapp_be.Base.Store.{get_row, update_row}
use roadassistapp_be.Payout.{
  Payout, PayoutRequestStatus, PayoutRequest, payout_request_id, Payee, payee_id, PayoutWorld,
  summary_for, settleable_for, waiting, paid_out, rejected_request,
}
use roadassistapp_be.Payout.Settle.{PayoutFresh, settle_batch}
use roadassistapp_be.Commission.{owed_total_by_payee, settle_direct}

abbrev is_waiting_for : ℕ → PayoutRequest → Bool
is_waiting_for payee r = r.payee_id == payee && elim r.status [ waiting ↦ true | _ ↦ false ]

-- `countPendingRequests`
unfoldable pub count_pending_requests : ℕ → List PayoutRequest → ℕ
count_pending_requests payee [] = 0
count_pending_requests payee (r ∷ rows) =
    (if is_waiting_for payee r then 1 else 0) + count_pending_requests payee rows

-- What a payee can ask for.
unfoldable pub available_for : ℕ → PayoutWorld → ℕ
unfolding summary_for settleable_for owed_total_by_payee
available_for payee w =
    (summary_for (settleable_for payee w.store)).net - owed_total_by_payee payee w.ledger

abbrev pub check_account : Option Payee → Result (Unit {0})
check_account none = err (not_found "User not found")
check_account (some u) =
    require u.has_account (validation "Add a payout account before requesting a payout")

unfoldable pub check_payout : ℕ → ℕ → PayoutWorld → Result (Unit {0})
unfolding count_pending_requests available_for
check_payout payee amount w =
    throw_if (leb amount 0) (validation "Requested amount is invalid")
    >> check_account (get_row payee_id payee w.payees)
    >> throw_if (ltb 0 (count_pending_requests payee w.payout_requests))
        (validation "A payout request is already pending")
    >> throw_if (ltb (available_for payee w) amount)
        (validation "Requested amount exceeds the available balance")

-- `createRequest`
abbrev new_payout_request : ℕ → ℕ → ℕ → ℕ → PayoutRequest
new_payout_request id now payee amount = record {
  id = id;
  payee_id = payee;
  amount = amount;
  status = waiting;
  requested_at = now;
  decided_by = none;
  payout_batch_id = none;
}

-- `requestPayout`
unfoldable pub request_payout : ℕ → ℕ → ℕ → ℕ → PayoutWorld → PayoutWorld × Result PayoutRequest
unfolding check_payout
request_payout id now payee amount w = elim (check_payout payee amount w) [
  | err e ↦ (w, err e)
  | ok u ↦
      let r = new_payout_request id now payee amount in
      (record w { payout_requests = r ∷ w.payout_requests }, ok r)
]

abbrev decide_payout : ℕ → PayoutRequestStatus → Option ℕ → PayoutRequest → PayoutRequest
decide_payout admin status batch r = record r {
  status = status;
  decided_by = some admin;
  payout_batch_id = batch;
}

abbrev write_decision :
    PayoutRequest
    → (PayoutRequest → PayoutRequest)
    → Option Payout
    → PayoutWorld
    → PayoutWorld × Result (Option Payout)
write_decision r f batch w =
    (record w { payout_requests = update_row payout_request_id r.id f w.payout_requests }, ok batch)

abbrev after_settle :
    ℕ → PayoutRequest → PayoutWorld × Result Payout → PayoutWorld × Result (Option Payout)
after_settle admin r (w, err e) = (w, err e)
after_settle admin r (w, ok b) =
    write_decision r (decide_payout admin paid_out (some b.id)) (some b) w

abbrev is_waiting : PayoutRequestStatus → Bool
is_waiting waiting = true
is_waiting _ = false

-- `decideRequest`: the batch that it pays, if any.
unfoldable pub decide_request :
    PayoutFresh → ℕ → ℕ → Bool → PayoutWorld → PayoutWorld × Result (Option Payout)
unfolding settle_batch
decide_request fresh admin id approve w = elim (get_row payout_request_id id w.payout_requests) [
  | none ↦ (w, err (not_found "Payout request not found"))
  | some r ↦
      if not (is_waiting r.status)
      then (w, err (validation "Payout request is already decided"))
      else if not approve
      then write_decision r (decide_payout admin rejected_request none) none w
      else after_settle admin r (settle_batch fresh admin r.payee_id [] w)
]

-- `settleCommission`: how much it settles.
unfoldable pub settle_commission : ℕ → PayoutWorld → PayoutWorld × Result ℕ
unfolding settle_direct
settle_commission payee w = elim (get_row payee_id payee w.payees) [
  | none ↦ (w, err (not_found "Payee not found"))
  | some u ↦ let done = settle_direct payee w.ledger in (record w { ledger = done.0 }, ok done.1)
]
