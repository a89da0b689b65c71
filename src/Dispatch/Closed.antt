-- ===== src/Dispatch/Closed.antt =====
-- A ticket that its rider cancels: its payments are wound up.
use roadassistapp_be.Base.{
  ℕ, ◌≡◌, refl, sym, ap, subst, ◌∙◌, inl, inr, Bool, true, false, some, arith, ◌==◌, ==_iff, All,
}
use roadassistapp_be.Base.Result.{Result-cases, ok, err}
use roadassistapp_be.Status.{TicketStatus, cancelled}
use roadassistapp_be.Transition.{Caller}
use roadassistapp_be.Payment.World.{TicketRow, full_refunds}
use roadassistapp_be.Refund.Steps.{IsFair}
use roadassistapp_be.Dispatch.{DispatchWorld, Env, find_row}
use roadassistapp_be.Dispatch.Guards.{caller_for, check_update}
use roadassistapp_be.Dispatch.Money.Asked.{IsPaidBy, IsWoundUp, close_asks}
use roadassistapp_be.Dispatch.Tow.{cancel_quoted}
use roadassistapp_be.Dispatch.Update.{
  when, is_tower_cancel, closes_payments, closed_money, change, UpdateInput, perform, update_found,
  update_dispatch_status,
}
use roadassistapp_be.Dispatch.Edits.{ledger}
use roadassistapp_be.Dispatch.Handled.{IsFair-ledger}
use roadassistapp_be.Dispatch.Change.{change_ledger, quoted_ledger, perform_change}
use roadassistapp_be.Dispatch.Outcome.{update_known}

pub closed_ledger :
    (env : Env) (id user : ℕ) (admin : Bool) (input : UpdateInput) (s : TicketStatus) (c : Caller)
    (w : DispatchWorld) (q : TicketRow)
    → find_row id w ≡ some q
    → is_tower_cancel s q.ticket c ≡ false
    → closes_payments s q.ticket c ≡ true
    → ledger (perform env id user admin input s q.ticket c w)
      ≡ ledger (closed_money env user admin id (cancel_quoted env id q.ticket w))
unfolding perform
closed_ledger env id user admin input s c w q f calm closing =
    let t = q.ticket in
    let same = perform_change env id user admin input s t c t.assigned_shop_id w calm in
    let money = change_ledger env id user admin s c w q f in
    let all =
      subst
        (λ y.
          ledger (change env id user admin s t c w)
          ≡ ledger (when y (closed_money env user admin id) (when y (cancel_quoted env id t) w)))
        closing money in
    ap ledger same ∙ all

pub open_ledger :
    (env : Env) (id user : ℕ) (admin : Bool) (input : UpdateInput) (s : TicketStatus) (c : Caller)
    (w : DispatchWorld) (q : TicketRow)
    → find_row id w ≡ some q
    → is_tower_cancel s q.ticket c ≡ false
    → closes_payments s q.ticket c ≡ false
    → ledger (perform env id user admin input s q.ticket c w) ≡ ledger w
unfolding perform
open_ledger env id user admin input s c w q f calm closing =
    let t = q.ticket in
    let same = perform_change env id user admin input s t c t.assigned_shop_id w calm in
    let all =
      subst
        (λ y.
          ledger (change env id user admin s t c w)
          ≡ ledger (when y (closed_money env user admin id) (when y (cancel_quoted env id t) w)))
        closing (change_ledger env id user admin s c w q f) in
    ap ledger same ∙ all

-- A rider's cancellation that is accepted, when refunds are given in full and the rider has paid
-- more than nothing by each payment of the ticket, leaves no payment of the ticket pending, and an
-- open refund request for each that is received, from a fair state.
pub rider_cancel_winds_up :
    (env : Env) (id user : ℕ) (admin b : Bool) (input : UpdateInput) (w : DispatchWorld)
    (q : TicketRow)
    → env.refund_policy ≡ full_refunds
    → IsFair w.money
    → All (IsPaidBy user id) w.money.world.store.payments
    → input.status ≡ some cancelled
    → find_row id w ≡ some q
    → q.ticket.user_id ≡ user
    → (update_dispatch_status env id user (some admin) input w).1 ≡ ok b
    → All
        (IsWoundUp id (update_dispatch_status env id user (some admin) input w).0.money.refunds)
        (update_dispatch_status env id user (some admin) input w).0.money.world.store.payments
unfolding update_found caller_for
rider_cancel_winds_up env id user admin b input w q full fair paid k f mine a =
    let t = q.ticket in
    let c = caller_for user admin t w in
    let known = update_known env id user admin input cancelled w q k f in
    let rider : (t.user_id == user) ≡ true = (==_iff t.user_id user).1 mine in
    let calm : is_tower_cancel cancelled t c ≡ false = ground (arith, rider) in
    let closing : closes_payments cancelled t c ≡ true = rw rider refl in
    elim (Result-cases (check_update env id cancelled t c w)) [
      | inr (e, r) ↦
          let refusal : update_dispatch_status env id user (some admin) input w ≡ (w, err e) =
            known ∙ rw (r, update_found) refl in
          let no : err e ≡ ok b = subst (λ x. x.1 ≡ ok b) refusal a in cc no
      | inl (u, r) ↦
          let after = perform env id user admin input cancelled t c w in
          let quoted = cancel_quoted env id t w in
          let same : (update_dispatch_status env id user (some admin) input w).0 ≡ after =
            ap (λ x. x.0) known ∙ rw (r, update_found) refl in
          let money = closed_ledger env id user admin input cancelled c w q f calm closing in
          let start = quoted_ledger env id t w in
          let done =
            close_asks env user admin id quoted.money full (IsFair-ledger w quoted start fair)
              (subst (λ l. All (IsPaidBy user id) l.1.payments) (sym start) paid) in
          subst (λ x. All (IsWoundUp id x.money.refunds) x.money.world.store.payments) (sym same)
            (subst (λ l. All (IsWoundUp id l.0) l.1.payments) (sym money) done)
    ]
