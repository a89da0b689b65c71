-- ===== src/Dispatch/Stranger.antt =====
-- A ticket that is cancelled by somebody who did not pay for it, such as a mobile shop.
use roadassistapp_be.Base.{
  ℕ, ◌≡◌, refl, sym, ap, subst, ◌∙◌, ◌≢◌, inl, inr, true, false, none, some, List, [], ◌∷◌, arith,
  ◌==◌, Bool-cases, All, All-map, All-zip,
}
use roadassistapp_be.Base.Result.{Result-cases, forbidden, err}
use roadassistapp_be.Base.Store.{IsKeyed-All}
use roadassistapp_be.Status.{cancelled, sos}
use roadassistapp_be.PaymentStatus.{is_received}
use roadassistapp_be.Payment.{Payment, payment_id, Store, find_payment, find_by_ticket}
use roadassistapp_be.Payment.World.{TicketRow, RefundPolicy}
use roadassistapp_be.Payment.Settle.{cancel_pending_payments}
use roadassistapp_be.Payment.Settle.Cancelled.{cancel_pending_payments-All}
use roadassistapp_be.Payment.Settle.Sound.{cancel_pending_payments-IsSound}
use roadassistapp_be.Payment.Guarded.{IsSound, All-find_by_ticket}
use roadassistapp_be.Refund.{RefundWorld, check_request, request_refund}
use roadassistapp_be.Refund.Steps.{IsFair}
use roadassistapp_be.Dispatch.{DispatchWorld, Env, find_row}
use roadassistapp_be.Dispatch.Guards.{caller_for, check_update}
use roadassistapp_be.Dispatch.Money.{request_refunds, close_payments}
use roadassistapp_be.Dispatch.Money.Asked.{found_own}
use roadassistapp_be.Dispatch.Tow.{cancel_quoted}
use roadassistapp_be.Dispatch.Update.{
  is_tower_cancel, closes_payments, UpdateInput, perform, update_found, update_dispatch_status,
}
use roadassistapp_be.Dispatch.Handled.{IsFair-ledger}
use roadassistapp_be.Dispatch.Change.{quoted_ledger}
use roadassistapp_be.Dispatch.Outcome.{update_known}
use roadassistapp_be.Dispatch.Closed.{closed_ledger, open_ledger}

stranger_fails :
    (policy : RefundPolicy) (user : ℕ) (p : Payment)
    → p.rider_uid ≢ user
    → check_request policy user (some false) none p
      ≡ err (forbidden "Only the rider requests a refund")
unfolding check_request
stranger_fails policy user p ne =
    let other : (p.rider_uid == user) ≡ false = ground (arith, ne) in rw other refl

-- What somebody else paid, as it is stored.
abbrev IsForeign : ℕ → Store → Payment → Type 0
IsForeign user s p = (find_payment p.id s ≡ some p) × (p.rider_uid ≢ user)

stranger_asks_nothing :
    (env : Env) (user : ℕ) (rows : List Payment) (w : RefundWorld)
    → All (IsForeign user w.world.store) rows
    → (request_refunds env user false rows w).refunds ≡ w.refunds
unfolding request_refunds request_refund
stranger_asks_nothing env user [] w h = refl
stranger_asks_nothing env user (p ∷ rows) w h = elim (Bool-cases (is_received p.status)) [
  | inr d ↦ rw d (stranger_asks_nothing env user rows w h.1)
  | inl e ↦
      let f = h.0.0 in
      let fails = stranger_fails env.refund_policy user p h.0.1 in
      let refusal : request_refund env.refund_policy (env.fresh w) env.now p.id user (some false)
            none true w
          ≡ (w, err (forbidden "Only the rider requests a refund")) =
        rw (f, fails, request_refund) refl in
      rw (e, refusal) (ap (λ x. x.0.refunds) refusal)
]

abbrev pub IsNotPaidBy : ℕ → ℕ → Payment → Type 0
IsNotPaidBy user id p = p.ticket_id ≡ id → p.rider_uid ≢ user

close_asks_nothing :
    (env : Env) (user id : ℕ) (m : RefundWorld)
    → IsFair m
    → All (IsNotPaidBy user id) m.world.store.payments
    → (close_payments env user false id m).refunds ≡ m.refunds
unfolding close_payments IsFair IsSound
close_asks_nothing env user id m fair foreign =
    let closed = record m { world = cancel_pending_payments id m.world } in
    let s = closed.world.store in
    let sound : IsSound s = cancel_pending_payments-IsSound id m.world fair.1 in
    let own : All (IsNotPaidBy user id) s.payments =
      cancel_pending_payments-All (IsNotPaidBy user id) id m.world (λ q k. k) foreign in
    let each =
      All-zip (IsNotPaidBy user id) (λ p. find_payment p.id s ≡ some p) s.payments own
        (IsKeyed-All payment_id s.payments sound.0) in
    let rows = find_by_ticket id s.payments in
    stranger_asks_nothing env user rows closed (
      All-map (λ p. (IsNotPaidBy user id p × (find_payment p.id s ≡ some p)) × (p.ticket_id ≡ id))
        (IsForeign user s) (λ p k. (k.0.1, k.0.0 k.1)) rows
        (All-zip (λ p. IsNotPaidBy user id p × (find_payment p.id s ≡ some p))
          (λ p. p.ticket_id ≡ id) rows (All-find_by_ticket _ id s.payments each)
          (found_own id s.payments)))

-- A request to cancel an SOS ticket by somebody who is no admin and has paid nothing for it, such
-- as the mobile shop's operator on the way, files no refund request, from a fair state: what the
-- rider has paid is kept, also when the ticket is CANCELLED.
pub mobile_cancel_asks_nothing :
    (env : Env) (id user : ℕ) (input : UpdateInput) (w : DispatchWorld) (q : TicketRow)
    → IsFair w.money
    → All (IsNotPaidBy user id) w.money.world.store.payments
    → input.status ≡ some cancelled
    → find_row id w ≡ some q
    → q.ticket.ticket_type ≡ sos
    → (update_dispatch_status env id user (some false) input w).0.money.refunds ≡ w.money.refunds
unfolding update_found
mobile_cancel_asks_nothing env id user input w q fair foreign k f ty =
    let t = q.ticket in
    let c = caller_for user false t w in
    let known = update_known env id user false input cancelled w q k f in
    let calm : is_tower_cancel cancelled t c ≡ false = ground (arith, ty) in
    elim (Result-cases (check_update env id cancelled t c w)) [
      | inr (e, r) ↦
          let refusal : update_dispatch_status env id user (some false) input w ≡ (w, err e) =
            known ∙ rw (r, update_found) refl in
          ap (λ x. x.0.money.refunds) refusal
      | inl (u, r) ↦
          let after = perform env id user false input cancelled t c w in
          let quoted = cancel_quoted env id t w in
          let same : (update_dispatch_status env id user (some false) input w).0 ≡ after =
            ap (λ x. x.0) known ∙ rw (r, update_found) refl in
          let start = quoted_ledger env id t w in
          let kept : after.money.refunds ≡ w.money.refunds =
            elim (Bool-cases (closes_payments cancelled t c)) [
              | inl e ↦
                  let money = closed_ledger env id user false input cancelled c w q f calm e in
                  ap (λ l. l.0) money
                  ∙ (close_asks_nothing env user id quoted.money (IsFair-ledger w quoted start fair)
                        (subst (λ l. All (IsNotPaidBy user id) l.1.payments) (sym start) foreign)
                      ∙ ap (λ l. l.0) start)
              | inr d ↦ ap (λ l. l.0) (open_ledger env id user false input cancelled c w q f calm d)
            ] in
          ap (λ x. x.money.refunds) same ∙ kept
    ]
