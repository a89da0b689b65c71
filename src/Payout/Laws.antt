-- ===== src/Payout/Laws.antt =====
-- A payment is paid out in one batch, what is deducted is settled in the ledger.
use roadassistapp_be.Base.{
  ℕ, ◌+◌, ◌≤◌, min, ◌≡◌, refl, sym, subst, Bool, true, false, Option, none, some, List, [], ◌∷◌,
  arith, ==_iff, All,
}
use roadassistapp_be.Base.Result.{Result, ok}
use roadassistapp_be.Base.Store.{get_row, get_row-id}
use roadassistapp_be.Payout.{
  Payout, payout_id, Payee, payee_id, PayoutWorld, is_settleable, net_for, sum_payments,
  summary_for,
}
use roadassistapp_be.Payout.Settle.{
  check_listed, listed_payments, chosen_payments, PaymentStamp, check_stamped, check_stamps,
  check_entries, apply_settlement, batch_plan, PayoutFresh, new_batch, batch_stamp, settle_chosen,
  settle_batch,
}
use roadassistapp_be.Commission.{
  owed_total_by_payee, SettlementUpdate, plan_settlement, apply_updates,
}
use roadassistapp_be.Payment.{Payment, payment_id, Store, find_payment}

-- Whether the payment that an id finds can still be settled.
abbrev settleable_in : Option Payment → Bool
settleable_in none = false
settleable_in (some p) = is_settleable p

abbrev pub settleable_at : ℕ → Store → Bool
settleable_at id s = settleable_in (find_payment id s)

-- What a settlement that is applied comes to.
abbrev Settles : Payout → List SettlementUpdate → PayoutWorld → PayoutWorld × Result Payout → Type 0
Settles b us w reply =
    (reply.1 ≡ ok b)
    × All (λ id. settleable_at id reply.0.store ≡ false) b.payment_ids
    × (reply.0.ledger ≡ apply_updates us w.ledger)

-- What holds of a batch that `settleBatch` returns.
abbrev pub Settled : ℕ → ℕ → PayoutWorld → PayoutWorld → Payout → Type 0
Settled payee batch before after b =
    All (λ id. settleable_at id after.store ≡ false) b.payment_ids
    × (b.commission_deducted ≤ b.net)
    × ((plan_settlement payee b.commission_deducted batch before.ledger).1 ≡ b.commission_deducted)
    × (after.ledger
        ≡ apply_updates (plan_settlement payee b.commission_deducted batch before.ledger).0
            before.ledger)

stamps_ok : (p : Payment) → is_settleable p ≡ true → check_stamped (some p) ≡ ok tt
stamps_ok p h = ground arith

listed_ok :
    (payee : ℕ) (p : Payment)
    → p.payee_id ≡ payee
    → is_settleable p ≡ true
    → check_listed payee (some p) ≡ ok p
listed_ok payee p mine h = rw ((==_iff p.payee_id payee).1 mine, h) refl

apply_free :
    (b : Payout) (st : PaymentStamp) (w : PayoutWorld)
    → get_row payout_id b.id w.batches ≡ none
    → check_stamps b.payment_ids w.store ≡ ok tt
    → (apply_settlement b st [] w).1 ≡ ok b
unfolding apply_settlement check_entries
apply_free b st w f stamps = rw (f, stamps, apply_settlement) refl

-- With nothing owed, a batch whose payments can be stamped is paid out.
settle_chosen_free :
    (fresh : PayoutFresh) (admin payee : ℕ) (p : Payment) (rows : List Payment) (w : PayoutWorld)
    → get_row payout_id fresh.id w.batches ≡ none
    → check_stamps (summary_for (p ∷ rows)).payment_ids w.store ≡ ok tt
    → owed_total_by_payee payee w.ledger ≡ 0
    → (settle_chosen fresh admin payee (p ∷ rows) w).1
      ≡ ok (new_batch fresh admin payee (summary_for (p ∷ rows)) 0)
unfolding settle_chosen new_batch batch_plan
settle_chosen_free fresh admin payee p rows w f stamps free =
    let s = summary_for (p ∷ rows) in
    let none_owed : 0 ≡ min (owed_total_by_payee payee w.ledger) s.net = omega arith in
    subst
      (λ d.
        (apply_settlement (new_batch fresh admin payee s d) (batch_stamp fresh admin)
          (batch_plan payee d fresh.id w.ledger) w).1
        ≡ ok (new_batch fresh admin payee s 0))
      none_owed (apply_free (new_batch fresh admin payee s 0) (batch_stamp fresh admin) w f stamps)

-- A settlement under a fresh id that lists a settleable payment of its payee twice passes all of its
-- checks and counts the payment twice: the batch pays out its net two times, for a payee who owes no
-- commission.
pub settle_batch_twice :
    (fresh : PayoutFresh) (admin payee id : ℕ) (w : PayoutWorld) {u : Payee} {p : Payment}
    → get_row payee_id payee w.payees ≡ some u
    → get_row payout_id fresh.id w.batches ≡ none
    → find_payment id w.store ≡ some p
    → p.payee_id ≡ payee
    → is_settleable p ≡ true
    → owed_total_by_payee payee w.ledger ≡ 0
    → (b : Payout) × ((settle_batch fresh admin payee (id ∷ id ∷ []) w).1 ≡ ok b)
      × (b.net ≡ net_for p + net_for p)
unfolding settle_batch listed_payments summary_for sum_payments new_batch check_stamps
settle_batch_twice fresh admin payee id w {u} {p} n f g mine ok_p free =
    let i : p.id ≡ id = get_row-id payment_id id w.store.payments g in
    let h : find_payment p.id w.store ≡ some p =
      subst (λ x. find_payment x w.store ≡ some p) (sym i) g in
    let stamps : check_stamps (p.id ∷ p.id ∷ []) w.store ≡ ok tt = rw (h, stamps_ok p ok_p) refl in
    let chosen : chosen_payments payee (id ∷ id ∷ []) w.store ≡ ok (p ∷ p ∷ []) =
      rw (g, listed_ok payee p mine ok_p) refl in
    (
      new_batch fresh admin payee (summary_for (p ∷ p ∷ [])) 0,
      rw (n, chosen, settle_batch)
          (settle_chosen_free fresh admin payee p (p ∷ []) w f stamps free),
      omega arith,
    )
