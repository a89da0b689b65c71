-- ===== src/Dispatch/Money.antt =====
-- What the cancellation of a ticket by its rider, or by the mobile shop, does to its payments.
pub mod Steps
pub mod Asked
use roadassistapp_be.Base.{ℕ, Bool, true, none, some, List, [], ◌∷◌, if◌then◌else◌}
use roadassistapp_be.Base.Result.{ok, err}
use roadassistapp_be.PaymentStatus.{is_received}
use roadassistapp_be.Payment.{Payment, find_by_ticket}
use roadassistapp_be.Payment.Settle.{cancel_pending_payments}
use roadassistapp_be.Refund.{RefundWorld, request_refund}
use roadassistapp_be.Dispatch.{Env}

-- The loop that asks for refunds: it is one `try` block, which the first error leaves.
unfoldable pub request_refunds : Env → ℕ → Bool → List Payment → RefundWorld → RefundWorld
unfolding request_refund
request_refunds env user admin [] w = w
request_refunds env user admin (p ∷ rows) w =
    let (after, reply) =
      request_refund env.refund_policy (env.fresh w) env.now p.id user (some admin) none true w in
    let next = request_refunds env user admin rows after in
    let skipped = request_refunds env user admin rows w in
    if is_received p.status then elim reply [ ok r ↦ next | err e ↦ after ] else skipped

-- The pending payments are cancelled, and refunds are asked for those that are received.
unfoldable pub close_payments : Env → ℕ → Bool → ℕ → RefundWorld → RefundWorld
unfolding cancel_pending_payments find_by_ticket request_refunds
close_payments env user admin ticket w =
    let closed = record w { world = cancel_pending_payments ticket w.world } in
    request_refunds env user admin (find_by_ticket ticket closed.world.store.payments) closed
