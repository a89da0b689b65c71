-- ===== src/Dispatch/Money/Steps.antt =====
-- A ticket's payments are closed by steps of the payment and refund handlers.
use roadassistapp_be.Base.{
  ℕ, ◌≡◌, refl, sym, subst, ◌∙◌, inl, inr, Bool, true, none, some, List, [], ◌∷◌, arith, Bool-cases,
}
use roadassistapp_be.Base.Result.{Result-cases}
use roadassistapp_be.PaymentStatus.{is_received}
use roadassistapp_be.Payment.{Payment, find_by_ticket}
use roadassistapp_be.Payment.Settle.{cancel_pending_payments}
use roadassistapp_be.Payment.Steps.{cancels}
use roadassistapp_be.Payment.Settle.Tickets.{KeepsTickets, cancel_pending_payments-KeepsTickets}
use roadassistapp_be.Refund.{RefundWorld, find_request, request_refund}
use roadassistapp_be.Refund.Steps.{RefundSteps, requests, pays, done, then}
use roadassistapp_be.Dispatch.{Env}
use roadassistapp_be.Dispatch.Money.{request_refunds, close_payments}

request_refunds-RefundSteps :
    (env : Env) (user : ℕ) (admin : Bool) (rows : List Payment) (w : RefundWorld)
    → ((v : RefundWorld) → find_request (env.fresh v) v ≡ none)
    → RefundSteps w (request_refunds env user admin rows w)
unfolding request_refunds
request_refunds-RefundSteps env user admin [] w new = done w
request_refunds-RefundSteps env user admin (p ∷ rows) w new =
    let step =
      requests env.refund_policy (env.fresh w) env.now p.id user (some admin) none true w (new w) in
    let reply =
      request_refund env.refund_policy (env.fresh w) env.now p.id user (some admin) none true w in
    elim (Bool-cases (is_received p.status)) [
      | inr d ↦ rw d (request_refunds-RefundSteps env user admin rows w new)
      | inl e ↦ elim (Result-cases reply.1) [
        | inl (r, k) ↦
            rw (e, k)
              (then w reply.0 _ step (request_refunds-RefundSteps env user admin rows reply.0 new))
        | inr (x, k) ↦ rw (e, k) (then w reply.0 reply.0 step (done reply.0))
      ]
    ]

pub close_payments-RefundSteps :
    (env : Env) (user : ℕ) (admin : Bool) (ticket : ℕ) (w : RefundWorld)
    → ((v : RefundWorld) → find_request (env.fresh v) v ≡ none)
    → RefundSteps w (close_payments env user admin ticket w)
unfolding close_payments
close_payments-RefundSteps env user admin ticket w new =
    let closed = record w { world = cancel_pending_payments ticket w.world } in
    then w closed _ (pays w (cancel_pending_payments ticket w.world) (cancels ticket w.world)) (
      request_refunds-RefundSteps env user admin (find_by_ticket ticket closed.world.store.payments)
        closed new)

pub request_refund_world :
    (env : Env) (p : Payment) (user : ℕ) (admin : Bool) (w : RefundWorld)
    → (request_refund env.refund_policy
        (env.fresh w)
        env.now
        p.id
        user
        (some admin)
        none
        true
        w).0.world
      ≡ w.world
unfolding request_refund
request_refund_world env p user admin w = ground arith

-- Asking for refunds writes no payment and no ticket.
pub request_refunds_world :
    (env : Env) (user : ℕ) (admin : Bool) (rows : List Payment) (w : RefundWorld)
    → (request_refunds env user admin rows w).world ≡ w.world
unfolding request_refunds
request_refunds_world env user admin [] w = refl
request_refunds_world env user admin (p ∷ rows) w =
    let reply =
      request_refund env.refund_policy (env.fresh w) env.now p.id user (some admin) none true w in
    let same = request_refund_world env p user admin w in
    elim (Bool-cases (is_received p.status)) [
      | inr d ↦ rw d (request_refunds_world env user admin rows w)
      | inl e ↦ elim (Result-cases reply.1) [
        | inl (r, k) ↦ rw (e, k) (request_refunds_world env user admin rows reply.0 ∙ same)
        | inr (x, k) ↦ rw (e, k) same
      ]
    ]

pub close_payments-KeepsTickets :
    (env : Env) (user : ℕ) (admin : Bool) (ticket : ℕ) (w : RefundWorld)
    → KeepsTickets w.world (close_payments env user admin ticket w).world
unfolding close_payments
close_payments-KeepsTickets env user admin ticket w =
    let closed = record w { world = cancel_pending_payments ticket w.world } in
    subst (KeepsTickets w.world)
      (sym (
        request_refunds_world env user admin (find_by_ticket ticket closed.world.store.payments)
          closed))
      (cancel_pending_payments-KeepsTickets ticket w.world)
