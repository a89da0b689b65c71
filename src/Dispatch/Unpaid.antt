-- ===== src/Dispatch/Unpaid.antt =====
-- What `assertCashConfirmedForResolve` keeps a rider from, and what a settled tow does not bill.
use roadassistapp_be.Base.{
  ℕ, ◌≡◌, refl, sym, ap, subst, ◌∙◌, ◌≢◌, inl, inr, Bool, true, false, some, List, arith, is_some,
  find,
}
use roadassistapp_be.Base.Result.{AppError, ◌>>◌, Result-cases, both_ok, validation, ok, err}
use roadassistapp_be.Base.Store.{get_row-update_row}
use roadassistapp_be.Status.{TicketType, is_tow, resolved, tow}
use roadassistapp_be.PaymentStatus.{is_cash, same_status, confirmed}
use roadassistapp_be.Ticket.{TowFare, Ticket}
use roadassistapp_be.Bill.Amount.{tow_waiting_fee}
use roadassistapp_be.Payment.{Payment, find_by_ticket}
use roadassistapp_be.Transition.{Caller, assert_transition}
use roadassistapp_be.Payment.World.{TicketRow, row_id}
use roadassistapp_be.Dispatch.{DispatchWorld, Env, find_row, on_ticket}
use roadassistapp_be.Dispatch.Guards.{
  caller_for, assert_cash_confirmed, view_of, check_before, check_after, check_update,
}
use roadassistapp_be.Dispatch.Tow.{tow_fare_rates, settled_fare, put_settled, settle_delivered}
use roadassistapp_be.Dispatch.Update.{
  is_tower_cancel, UpdateInput, perform, update_found, update_dispatch_status,
}
use roadassistapp_be.Dispatch.Change.{change_settled, perform_change}
use roadassistapp_be.Dispatch.Outcome.{update_known}

cash_refused :
    (id : ℕ) (ty : TicketType) (payments : List Payment) (p : Payment)
    → ty ≢ tow
    → find (λ x. is_cash x.method) (find_by_ticket id payments) ≡ some p
    → p.status ≢ confirmed
    → assert_cash_confirmed id ty false payments
      ≡ err (validation "Confirm cash received before resolving")
unfolding assert_cash_confirmed
cash_refused id ty payments p ne f n =
    let no : same_status p.status confirmed ≡ false = ground (arith, n) in
    let other : is_tow ty ≡ false = ground (arith, ne) in rw (other, f, no) refl

resolve_needs_cash :
    (env : Env) (id : ℕ) (t : Ticket) (c : Caller) (w : DispatchWorld)
    → check_update env id resolved t c w ≡ ok tt
    → assert_cash_confirmed id t.ticket_type c.is_admin w.money.world.store.payments ≡ ok tt
unfolding check_update check_before
resolve_needs_cash env id t c w h =
    let before = check_before env id resolved t c w in
    let moves = assert_transition (view_of t) resolved c in
    let first : before ≡ ok tt =
      (both_ok before moves
        (both_ok (before >> moves) (check_after env id resolved t c w) h).0).0 in
    (both_ok _ _ (both_ok _ _ first).1).1

-- A walk-in, a mechanic's or a mobile shop's ticket whose latest cash payment is not CONFIRMED is
-- not resolved by anyone but an admin, and nothing is written, whatever its other payments are:
-- a cash payment that was CANCELLED when the rider changed to SePay blocks it too.
pub cash_blocks_resolve :
    (env : Env) (id user : ℕ) (input : UpdateInput) (w : DispatchWorld) (q : TicketRow)
    (p : Payment)
    → input.status ≡ some resolved
    → find_row id w ≡ some q
    → q.ticket.ticket_type ≢ tow
    → find (λ x. is_cash x.method) (find_by_ticket id w.money.world.store.payments) ≡ some p
    → p.status ≢ confirmed
    → (e : AppError) × (update_dispatch_status env id user (some false) input w ≡ (w, err e))
unfolding update_found caller_for
cash_blocks_resolve env id user input w q p k f ne g n =
    let known = update_known env id user false input resolved w q k f in
    let c = caller_for user false q.ticket w in
    elim (Result-cases (check_update env id resolved q.ticket c w)) [
      | inr (e, r) ↦ (e, known ∙ rw (r, update_found) refl)
      | inl (u, r) ↦
          let pass = resolve_needs_cash env id q.ticket c w r in
          let fail = cash_refused id q.ticket.ticket_type w.money.world.store.payments p ne g n in
          let no : err (validation "Confirm cash received before resolving") ≡ ok tt =
            sym fail ∙ pass in
          cc no
    ]

-- A tow that was quoted is delivered: the fare on the ticket has no waiting fee.
settled_waits_free :
    (env : Env) (id : ℕ) (t : Ticket) (quote : TowFare) (w : DispatchWorld) (q : TicketRow)
    → t.tow_fare ≡ some quote
    → is_some quote.estimate ≡ true
    → find_row id w ≡ some q
    → (r : TicketRow) × ((find_row id (settle_delivered env id t w) ≡ some r)
        × (tow_waiting_fee r.ticket.tow_fare ≡ 0))
unfolding settle_delivered on_ticket settled_fare
settled_waits_free env id t quote w q k e f =
    rw (k, e, settle_delivered)
      (
        record q { ticket = put_settled env id (tow_fare_rates env t w) quote q.ticket },
        (
          get_row-update_row row_id id
              (λ r. record r {
                ticket = put_settled env id (tow_fare_rates env t w) quote r.ticket;
              })
              w.money.world.tickets (λ r. refl) f,
          refl,
        ),
      )

-- A tow with a quoted fare that a request brings to RESOLVED has no waiting fee in its bill,
-- however long the tower has waited: the fare that is settled takes the place of the one on which
-- `stopWaiting` has just written the fee.
pub resolved_tow_waits_free :
    (env : Env) (id user : ℕ) (admin b : Bool) (input : UpdateInput) (w : DispatchWorld)
    (q : TicketRow) (quote : TowFare)
    → input.status ≡ some resolved
    → find_row id w ≡ some q
    → q.ticket.ticket_type ≡ tow
    → q.ticket.tow_fare ≡ some quote
    → is_some quote.estimate ≡ true
    → (update_dispatch_status env id user (some admin) input w).1 ≡ ok b
    → (r : TicketRow) × ((find_row id (update_dispatch_status env id user (some admin) input w).0
          ≡ some r)
        × (tow_waiting_fee r.ticket.tow_fare ≡ 0))
unfolding update_found perform
resolved_tow_waits_free env id user admin b input w q quote k f ty fare priced a =
    let t = q.ticket in
    let c = caller_for user admin t w in
    let known = update_known env id user admin input resolved w q k f in
    let calm : is_tower_cancel resolved t c ≡ false = ground arith in
    elim (Result-cases (check_update env id resolved t c w)) [
      | inr (e, r) ↦
          let refusal : update_dispatch_status env id user (some admin) input w ≡ (w, err e) =
            known ∙ rw (r, update_found) refl in
          let no : err e ≡ ok b = subst (λ x. x.1 ≡ ok b) refusal a in cc no
      | inl (u, r) ↦
          let (x, (y, hy)) = change_settled env id user admin c w q f ty in
          let same : (update_dispatch_status env id user (some admin) input w).0
              ≡ perform env id user admin input resolved t c w =
            ap (λ x. x.0) known ∙ rw (r, update_found) refl in
          let all =
            same
            ∙ (perform_change env id user admin input resolved t c t.assigned_shop_id w calm
                ∙ hy.1) in
          subst
            (λ v.
              (r : TicketRow) × ((find_row id v ≡ some r)
                × (tow_waiting_fee r.ticket.tow_fare ≡ 0)))
            (sym all) (settled_waits_free env id t quote x y fare priced hy.0)
    ]
