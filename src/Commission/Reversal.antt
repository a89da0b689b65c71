-- ===== src/Commission/Reversal.antt =====
-- What the reversal of commission for a refund writes.
use roadassistapp_be.Base.{
  ℕ, ◌+◌, ◌-◌, ◌*◌, ◌<◌, ◌≡◌, refl, min, Option, none, some, List, ◌==◌, inl, inr, arith,
  Option-cases, find-All,
}
use roadassistapp_be.Base.Int.{round_div}
use roadassistapp_be.Base.Store.{get_row, get_row-update_row, IsKeyed, IsKeyed-All}
use roadassistapp_be.Commission.{
  CommissionEntry, entry_id, find_by_payment, reversal, reverse_entry, reverse_for_refund,
}

-- A row that is written with a share given back.
reverse_entry_lem :
    (e : CommissionEntry) (share : ℕ) (ledger : List CommissionEntry)
    → get_row entry_id e.id ledger ≡ some e
    → get_row entry_id e.id (reverse_entry e share ledger).0
      ≡ some (record e { reversed_amount = e.reversed_amount + share })
unfolding reverse_entry
reverse_entry_lem e share ledger here =
    let written =
      get_row-update_row entry_id e.id
        (λ r. record r { reversed_amount = e.reversed_amount + share }) ledger (λ r. refl) here in
    ground (arith, written)

-- The ledger after the refund of a part of a payment: on the payment's entry, if there is one, that
-- part of the commission is given back, rounded, and no more than is open; without an entry the
-- ledger stays.
abbrev pub GivesBack :
    ℕ → ℕ → Option CommissionEntry → List CommissionEntry → List CommissionEntry → Type 0
GivesBack refunded paid none before after = after ≡ before
GivesBack refunded paid (some e) before after =
    get_row entry_id e.id after
    ≡ some (record e {
      reversed_amount =
          e.reversed_amount
          + min (e.amount - e.settled_amount - e.reversed_amount)
              (round_div (e.amount * refunded) paid);
    })

reversal_of_paid :
    (e : CommissionEntry) (refunded paid : ℕ)
    → 0 < refunded
    → 0 < paid
    → reversal e refunded paid
      ≡ min (e.amount - e.settled_amount - e.reversed_amount) (round_div (e.amount * refunded) paid)
reversal_of_paid e refunded paid h k = ground arith

pub reverse_for_refund-GivesBack :
    (payment refunded paid : ℕ) (ledger : List CommissionEntry)
    → 0 < refunded
    → 0 < paid
    → IsKeyed entry_id ledger
    → GivesBack refunded paid
        (find_by_payment payment ledger)
        ledger
        (reverse_for_refund payment refunded paid ledger).0
unfolding reverse_for_refund find_by_payment
reverse_for_refund-GivesBack payment refunded paid ledger h k keyed =
    elim (Option-cases (find_by_payment payment ledger)) [
      | inl n ↦ rw (n, reverse_for_refund) refl
      | inr (e, n) ↦
          let here : get_row entry_id e.id ledger ≡ some e =
            find-All (λ (x : CommissionEntry). x.payment_id == payment)
              (λ (x : CommissionEntry). get_row entry_id x.id ledger ≡ some x) ledger n
              (IsKeyed-All entry_id ledger keyed) in
          rw (n, reverse_for_refund, reversal_of_paid e refunded paid h k)
            (reverse_entry_lem e
              (min (e.amount - e.settled_amount - e.reversed_amount)
                (round_div (e.amount * refunded) paid))
              ledger here)
    ]
