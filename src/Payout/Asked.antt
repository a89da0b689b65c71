-- ===== src/Payout/Asked.antt =====
-- When a payout request is granted: the amount is positive and available, an account is on file, and
-- no request of the payee is pending.
use roadassistapp_be.Base.{
  ℕ, ◌+◌, ◌-◌, ◌≤◌, ◌<◌, ◌≡◌, ◌≢◌, ◌⊎◌, refl, ◌↔◌, inl, inr, true, not, ◌&&◌, ◌||◌, Option, none,
  some, List, [], ◌∷◌, arith, ◌==◌, if◌then◌else◌, is_some, All,
}
use roadassistapp_be.Base.Result.{Result, Result-cases, ok}
use roadassistapp_be.Base.Store.{get_row}
use roadassistapp_be.PaymentStatus.{is_received}
use roadassistapp_be.Payment.{Payment, is_subscription}
use roadassistapp_be.Payout.{
  Payee, payee_id, PayoutRequest, waiting, PayoutWorld, net_for, sum_payments, summary_for,
  settleable_for, filter_settleable, find_received_by_payee,
}
use roadassistapp_be.Payout.Requests.{
  count_pending_requests, available_for, check_account, check_payout, request_payout,
}
use roadassistapp_be.Commission.Laws.{open_commission, owed_total_by_payee-open_commission}

-- The net of a payee's received payments that no batch has paid out, subscriptions aside, among the
-- latest ones, no more than so many.
unfoldable pub unpaid_net : ℕ → ℕ → List Payment → ℕ
unpaid_net payee limit [] = 0
unpaid_net payee limit (p ∷ rows) =
    let counted = unpaid_net payee (limit - 1) rows in
    let passed = unpaid_net payee limit rows in
    if not (p.payee_id == payee && is_received p.status)
    then passed
    else if limit == 0
    then 0
    else if is_subscription p.purpose || is_some p.payout_at || is_some p.payout_batch_id
    then counted
    else net_for p + counted

-- When a payee may ask for an amount: the amount, with the commission that the payee owes, is no
-- more than the net of its latest 500 received payments that are not paid out.
abbrev pub MayAsk : ℕ → ℕ → PayoutWorld → Type 0
MayAsk payee amount w =
    (0 < amount)
    × ((u : Payee) × (get_row payee_id payee w.payees ≡ some u) × (u.has_account ≡ true))
    × All (λ (r : PayoutRequest). (r.payee_id ≢ payee) ⊎ (r.status ≢ waiting)) w.payout_requests
    × (amount + open_commission payee w.ledger ≤ unpaid_net payee 500 w.store.payments)

-- A request is filed: it is the latest one, for the payee and the amount, and waits.
abbrev pub Files : ℕ → ℕ → List PayoutRequest → PayoutWorld × Result PayoutRequest → Type 0
Files payee amount before (after, answer) =
    (r : PayoutRequest) × (answer ≡ ok r)
    × (after.payout_requests ≡ r ∷ before)
    × (r.payee_id ≡ payee)
    × (r.amount ≡ amount)
    × (r.status ≡ waiting)

settleable-unpaid_net :
    (payee limit : ℕ) (rows : List Payment)
    → (sum_payments (filter_settleable (find_received_by_payee payee limit rows))).net
      ≡ unpaid_net payee limit rows
unfolding sum_payments filter_settleable find_received_by_payee unpaid_net
settleable-unpaid_net payee limit [] = refl
settleable-unpaid_net payee limit (p ∷ rows) =
    ground
      (arith, settleable-unpaid_net payee limit rows, settleable-unpaid_net payee (limit - 1) rows)

available_for-le :
    (payee amount : ℕ) (w : PayoutWorld)
    → 0 < amount
    → (amount ≤ available_for payee w)
      ↔ (amount + open_commission payee w.ledger ≤ unpaid_net payee 500 w.store.payments)
unfolding available_for summary_for settleable_for
available_for-le payee amount w h =
    let owes = owed_total_by_payee-open_commission payee w.ledger in
    let earns = settleable-unpaid_net payee 500 w.store.payments in
    (λ l. omega arith, λ l. omega arith)

count_pending_requests-All :
    (payee : ℕ) (rows : List PayoutRequest)
    → (count_pending_requests payee rows ≡ 0)
      ↔ All (λ (r : PayoutRequest). (r.payee_id ≢ payee) ⊎ (r.status ≢ waiting)) rows
unfolding count_pending_requests
count_pending_requests-All payee [] = (λ h. tt, λ h. refl)
count_pending_requests-All payee (r ∷ rows) =
    let rest = count_pending_requests-All payee rows in
    (λ h. (ground arith, rest.0 (ground arith)), λ h. let z = rest.1 h.1 in ground (arith, h.0))

check_account_iff :
    (o : Option Payee)
    → (check_account o ≡ ok tt) ↔ ((u : Payee) × (o ≡ some u) × (u.has_account ≡ true))
check_account_iff none = (λ h. cc h, λ (u, h, a). cc h)
check_account_iff (some u) = (λ h. (u, refl, ground arith), λ (v, h, a). ground arith)

check_payout_iff :
    (payee amount : ℕ) (w : PayoutWorld)
    → (check_payout payee amount w ≡ ok tt) ↔ (
        (0 < amount)
        × (check_account (get_row payee_id payee w.payees) ≡ ok tt)
        × (count_pending_requests payee w.payout_requests ≡ 0)
        × (amount ≤ available_for payee w))
unfolding check_payout
check_payout_iff payee amount w = ground arith

check_payout-MayAsk :
    (payee amount : ℕ) (w : PayoutWorld)
    → (check_payout payee amount w ≡ ok tt) ↔ MayAsk payee amount w
check_payout-MayAsk payee amount w =
    let account = check_account_iff (get_row payee_id payee w.payees) in
    let pending = count_pending_requests-All payee w.payout_requests in
    (
      λ h.
          let (some_amount, filed, free, enough) = (check_payout_iff payee amount w).0 h in
          (
            some_amount,
            account.0 filed,
            pending.0 free,
            (available_for-le payee amount w some_amount).0 enough,
          ),
      λ (some_amount, owner, free, enough). (check_payout_iff payee amount w).1 (
        some_amount,
        account.1 owner,
        pending.1 free,
        (available_for-le payee amount w some_amount).1 enough,
      ),
    )

-- A payout request is answered and filed, as the latest one, for the payee and the amount, and
-- waiting, exactly if its amount is positive, an account is on file, no request of the payee waits,
-- and the amount, with the commission that the payee owes, is no more than the net of the latest 500
-- received payments of the payee, less those that are paid out and those for subscriptions.
pub request_payout_filed :
    (id now payee amount : ℕ) (w : PayoutWorld)
    → Files payee amount w.payout_requests (request_payout id now payee amount w)
      ↔ MayAsk payee amount w
unfolding request_payout
request_payout_filed id now payee amount w = elim (Result-cases (check_payout payee amount w)) [
  | inl (u, r) ↦
      rw (r, request_payout)
        (λ _. (check_payout-MayAsk payee amount w).0 r, λ _. (_, refl, refl, refl, refl, refl))
  | inr (e, r) ↦
      rw (r, request_payout) (λ f. cc (f.1), λ m. cc ((check_payout-MayAsk payee amount w).1 m, r))
]
