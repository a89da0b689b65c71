-- ===== src/Commission/Laws.antt =====
-- What settling and reversing commission comes to.
use roadassistapp_be.Base.{
  ◌≤◌, ◌+◌, some, ℕ, ◌-◌, ◌≡◌, refl, min, List, [], ◌∷◌, arith, leb, ◌==◌, ◌&&◌, if◌then◌else◌,
  Bool-cases, inl, inr,
}
use roadassistapp_be.Base.Store.{get_row, get_row-update_row, update_row}
use roadassistapp_be.Commission.{
  apply_updates, reversal, reverse_for_refund, reverse_entry, find_by_payment, CommissionEntry,
  entry_id, open_amount_of, sum_open, owed_total_by_payee, find_owed_by_payee, settlement,
  plan_rows, plan_settlement, write_settlement, settle_rows, settle_against, pay_open, settle_open,
  settle_direct, is_owed, insert_oldest,
}

plan_rows_total :
    (batch : ℕ) (rows : List CommissionEntry) (remaining : ℕ)
    → (plan_rows batch rows remaining).1 ≡ min remaining (sum_open rows)
unfolding plan_rows sum_open
plan_rows_total batch [] remaining = omega arith
plan_rows_total batch (e ∷ rows) remaining =
    ground (arith, plan_rows_total batch rows (remaining - min (open_amount_of e) remaining))

-- A plan to settle an amount settles all of it, or all that the payee owes if that is less.
pub plan_settlement_total :
    (payee amount batch : ℕ) (ledger : List CommissionEntry)
    → (plan_settlement payee amount batch ledger).1 ≡ min amount (owed_total_by_payee payee ledger)
unfolding plan_settlement owed_total_by_payee
plan_settlement_total payee amount batch ledger =
    ground (arith, plan_rows_total batch (find_owed_by_payee payee ledger) amount)

settle_rows-plan_rows :
    (batch : ℕ) (rows : List CommissionEntry) (remaining : ℕ) (ledger : List CommissionEntry)
    → settle_rows batch rows remaining ledger ≡ (
      apply_updates (plan_rows batch rows remaining).0 ledger,
      (plan_rows batch rows remaining).1,
    )
unfolding settle_rows plan_rows apply_updates
settle_rows-plan_rows batch [] remaining ledger = refl
settle_rows-plan_rows batch (e ∷ rows) remaining ledger =
    let applied = min (open_amount_of e) remaining in
    let u = settlement batch e applied in
    let skipped = settle_rows-plan_rows batch rows (remaining - applied) ledger in
    let written =
      settle_rows-plan_rows batch rows (remaining - applied)
        (update_row entry_id e.id (write_settlement u) ledger) in
    elim (Bool-cases (leb remaining 0)) [
      | inl done ↦ rw done refl
      | inr more ↦ elim (Bool-cases (leb (open_amount_of e) 0)) [
        | inl closed ↦ rw (more, closed) skipped
        | inr due ↦ rw (more, due) (cc written)
      ]
    ]

-- Settling at once writes the updates that a plan for the same amount lists, in their order, and
-- returns what the plan settles.
pub settle_against-plan_settlement :
    (payee amount batch : ℕ) (ledger : List CommissionEntry)
    → settle_against payee amount batch ledger ≡ (
      apply_updates (plan_settlement payee amount batch ledger).0 ledger,
      (plan_settlement payee amount batch ledger).1,
    )
unfolding settle_against plan_settlement apply_updates
settle_against-plan_settlement payee amount batch ledger = elim (Bool-cases (leb amount 0)) [
  | inl e ↦ rw e refl
  | inr d ↦ rw d (settle_rows-plan_rows batch (find_owed_by_payee payee ledger) amount ledger)
]

reversal_le :
    (e : CommissionEntry) (refund_amount payment_amount : ℕ)
    → reversal e refund_amount payment_amount ≤ open_amount_of e
reversal_le e refund_amount payment_amount = ground arith

-- For a payment with an entry, a reversal for a refund takes from what is open on it, and no
-- more: what is open after it and what it returns add up to what was open before.
pub reverse_for_refund_open :
    (payment refund_amount payment_amount : ℕ) (ledger : List CommissionEntry) {e : CommissionEntry}
    → find_by_payment payment ledger ≡ some e
    → get_row entry_id e.id ledger ≡ some e
    → (e' : CommissionEntry) × (get_row entry_id e.id
          (reverse_for_refund payment refund_amount payment_amount ledger).0
        ≡ some e')
      × (open_amount_of e' + (reverse_for_refund payment refund_amount payment_amount ledger).1
          ≡ open_amount_of e)
unfolding reverse_for_refund reverse_entry
reverse_for_refund_open payment refund_amount payment_amount ledger {e} f g =
    let share = reversal e refund_amount payment_amount in
    elim (Bool-cases (leb share 0)) [
      | inl z ↦ rw (f, reverse_for_refund, z, reverse_entry) (e, g, omega arith)
      | inr d ↦
          rw (f, reverse_for_refund, d, reverse_entry)
            (
              record e { reversed_amount = e.reversed_amount + share },
              get_row-update_row entry_id e.id
                  (λ r. record r { reversed_amount = e.reversed_amount + share }) ledger (λ r. refl)
                  g,
              ground (arith, reversal_le e refund_amount payment_amount),
            )
    ]

settle_open_total :
    (rows ledger : List CommissionEntry) → (settle_open rows ledger).1 ≡ sum_open rows
unfolding settle_open sum_open
settle_open_total [] ledger = refl
settle_open_total (e ∷ rows) ledger = ground (
  arith,
  settle_open_total rows ledger,
  settle_open_total rows (update_row entry_id e.id (pay_open e) ledger),
)

-- What is paid off the platform settles all that the payee owes.
settle_direct_total :
    (payee : ℕ) (ledger : List CommissionEntry)
    → (settle_direct payee ledger).1 ≡ owed_total_by_payee payee ledger
unfolding settle_direct owed_total_by_payee
settle_direct_total payee ledger = settle_open_total (find_owed_by_payee payee ledger) ledger

-- What is open of a payee's entries, in whatever order they stand.
unfoldable pub open_commission : ℕ → List CommissionEntry → ℕ
open_commission payee [] = 0
open_commission payee (e ∷ rows) =
    (if e.payee_id == payee && is_owed e.status
      then e.amount - e.settled_amount - e.reversed_amount
      else 0)
    + open_commission payee rows

sum_open-insert_oldest :
    (e : CommissionEntry) (rows : List CommissionEntry)
    → sum_open (insert_oldest e rows) ≡ open_amount_of e + sum_open rows
unfolding sum_open insert_oldest
sum_open-insert_oldest e [] = refl
sum_open-insert_oldest e (r ∷ rows) = ground (arith, sum_open-insert_oldest e rows)

-- What a payee owes is what is open of its entries.
pub owed_total_by_payee-open_commission :
    (payee : ℕ) (rows : List CommissionEntry)
    → owed_total_by_payee payee rows ≡ open_commission payee rows
unfolding owed_total_by_payee open_commission sum_open find_owed_by_payee
owed_total_by_payee-open_commission payee [] = refl
owed_total_by_payee-open_commission payee (e ∷ rows) = ground (
  arith,
  owed_total_by_payee-open_commission payee rows,
  sum_open-insert_oldest e (find_owed_by_payee payee rows),
)
