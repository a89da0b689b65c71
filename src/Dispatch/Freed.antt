-- ===== src/Dispatch/Freed.antt =====
-- The tower whose job ends takes requests again.
use roadassistapp_be.Base.{
  ℕ, ◌≡◌, refl, sym, ap, subst, ◌∙◌, inl, inr, Bool, true, false, ◌&&◌, Option, some, List, [], ◌∷◌,
  ==_iff, Bool-cases, Option-cases, is_some,
}
use roadassistapp_be.Base.Store.{get_row}
use roadassistapp_be.Base.Result.{Result-cases, ok, err}
use roadassistapp_be.Status.{TicketStatus, ◌=ˢ◌, is_tow, pending, resolved}
use roadassistapp_be.Ticket.{Ticket}
use roadassistapp_be.Transition.{Caller}
use roadassistapp_be.Payment.{find_by_ticket}
use roadassistapp_be.Payment.World.{TicketRow, Shop, shop_id}
use roadassistapp_be.Payment.Settle.{cancel_pending_payments}
use roadassistapp_be.Payment.Settle.Tickets.{cancel_pending_payments_shops}
use roadassistapp_be.Dispatch.{
  Place, ShopKind, DispatchWorld, Env, find_row, shop_at, on_ticket, on_job, on_provider,
  write_status,
}
use roadassistapp_be.Dispatch.Guards.{caller_for, check_update}
use roadassistapp_be.Dispatch.Money.{close_payments}
use roadassistapp_be.Dispatch.Money.Steps.{request_refunds_world}
use roadassistapp_be.Dispatch.Tow.{
  is_tow_provider, cancel_quoted, reopen_tower, offer_to, give_back, requeue, settle_delivered,
}
use roadassistapp_be.Dispatch.Update.{
  when, is_tower_cancel, closes_payments, closed_money, reopen_assigned, ends, follow_up, finish,
  before_status, change, UpdateInput, next_place, perform_for, perform, update_found,
  update_dispatch_status,
}
use roadassistapp_be.Dispatch.Edits.{yard, Edits-yard}
use roadassistapp_be.Dispatch.FollowUp.{follow_up-Edits}
use roadassistapp_be.Dispatch.Change.{give_back-Edits, quoted-Edits, written_row}
use roadassistapp_be.Dispatch.Outcome.{update_known}

reopen_frees :
    (shop : ℕ) (w : DispatchWorld)
    → is_some (shop_at shop w) ≡ true
    → is_tow_provider (w.providers shop).kind ≡ true
    → ((reopen_tower shop w).providers shop).accepting ≡ true
unfolding reopen_tower on_provider
reopen_frees shop w s k = elim (Bool-cases (w.providers shop).accepting) [
  | inl e ↦ rw (s, k, e, reopen_tower) e
  | inr d ↦ rw (s, k, d, reopen_tower) (rw ((==_iff shop shop).1 refl) refl)
]

settle_keeps :
    (env : Env) (id : ℕ) (t : Ticket) (w : DispatchWorld)
    → (settle_delivered env id t w).providers ≡ w.providers
unfolding settle_delivered on_ticket
settle_keeps env id t w = elim (Option-cases t.tow_fare) [
  | inl n ↦ rw (n, settle_delivered) refl
  | inr (quote, n) ↦ elim (Bool-cases (is_some quote.estimate)) [
    | inl e ↦ rw (n, e, settle_delivered) refl
    | inr d ↦ rw (n, d, settle_delivered) refl
  ]
]

when_settle_keeps :
    (b : Bool) (env : Env) (id : ℕ) (t : Ticket) (w : DispatchWorld)
    → (when b (settle_delivered env id t) w).providers ≡ w.providers
when_settle_keeps true env id t w = settle_keeps env id t w
when_settle_keeps false env id t w = refl

closed_yard :
    (env : Env) (id user x : ℕ) (admin b : Bool) (w : DispatchWorld)
    → yard x (when b (closed_money env user admin id) w) ≡ yard x w
unfolding close_payments
closed_yard env id user x admin false w = refl
closed_yard env id user x admin true w =
    let closed = record (w.money) { world = cancel_pending_payments id w.money.world } in
    ap (λ s. (s, (w.providers x).kind))
      (ap (λ v. v.shops)
          (request_refunds_world env user admin (find_by_ticket id closed.world.store.payments)
            closed)
        ∙ cancel_pending_payments_shops id w.money.world)

written_yard :
    (env : Env) (id user x : ℕ) (admin : Bool) (s : TicketStatus) (t : Ticket) (c : Caller)
    (w : DispatchWorld)
    → yard x (write_status id s user env.now (before_status env id user admin s t c w)) ≡ yard x w
unfolding before_status write_status on_job on_ticket
written_yard env id user x admin s t c w =
    let b = closes_payments s t c in
    let quoted = when b (cancel_quoted env id t) w in
    closed_yard env id user x admin b quoted ∙ Edits-yard id x w quoted (quoted-Edits env id b t w)

-- The shop is a tower's, and stored.
abbrev IsTowerAt : ℕ → List Shop × ShopKind → Type 0
IsTowerAt shop y = (is_some (get_row shop_id shop y.0) ≡ true) × (is_tow_provider y.1 ≡ true)

change_frees :
    (env : Env) (id user shop : ℕ) (admin : Bool) (s : TicketStatus) (c : Caller)
    (w : DispatchWorld) (q : TicketRow)
    → find_row id w ≡ some q
    → q.ticket.assigned_shop_id ≡ some shop
    → ends s ≡ true
    → IsTowerAt shop (yard shop w)
    → ((change env id user admin s q.ticket c w).providers shop).accepting ≡ true
unfolding change finish reopen_assigned
change_frees env id user shop admin s c w q f a e h =
    let t = q.ticket in
    let written = write_status id s user env.now (before_status env id user admin s t c w) in
    let (r, hr) = written_row env id user admin s c w q f in
    let before = follow_up env id user admin s t c written in
    let same : yard shop before ≡ yard shop w =
      Edits-yard id shop written before
        (follow_up-Edits env id user admin s t c written r hr.0 hr.1)
      ∙ written_yard env id user shop admin s t c w in
    let here : IsTowerAt shop (yard shop before) = subst (IsTowerAt shop) (sym same) h in
    let freed = reopen_frees shop before here.0 here.1 in
    let open_again : ((when (ends s) (reopen_assigned t) before).providers shop).accepting ≡ true =
      rw (e, a, reopen_assigned) freed in
    subst (λ p. (p shop).accepting ≡ true)
      (sym (
        when_settle_keeps (s =ˢ resolved && is_tow t.ticket_type) env id t
          (when (ends s) (reopen_assigned t) before)))
      open_again

offer_keeps :
    (id : ℕ) (operators : List ℕ) (w : DispatchWorld)
    → (offer_to id operators w).providers ≡ w.providers
unfolding on_job
offer_keeps id [] w = refl
offer_keeps id (o ∷ operators) w = refl

requeue_frees :
    (env : Env) (id user shop : ℕ) (place : Place) (reason : Option ℕ) (t : Ticket)
    (w : DispatchWorld)
    → IsTowerAt shop (yard shop w)
    → ((requeue env id user shop place reason t w).providers shop).accepting ≡ true
unfolding requeue write_status on_job on_ticket
requeue_frees env id user shop place reason t w h =
    let freed = give_back env id user shop place reason t w in
    let again = write_status id pending user env.now freed in
    let same : yard shop again ≡ yard shop w =
      Edits-yard id shop w freed (give_back-Edits env id user shop place reason t w) in
    let here : IsTowerAt shop (yard shop again) = subst (IsTowerAt shop) (sym same) h in
    subst (λ p. (p shop).accepting ≡ true)
      (sym (offer_keeps id (env.operators place) (reopen_tower shop again)))
      (reopen_frees shop again here.0 here.1)

perform_frees :
    (env : Env) (id user shop : ℕ) (admin : Bool) (input : UpdateInput) (s : TicketStatus)
    (c : Caller) (w : DispatchWorld) (q : TicketRow)
    → find_row id w ≡ some q
    → q.ticket.assigned_shop_id ≡ some shop
    → ends s ≡ true
    → IsTowerAt shop (yard shop w)
    → ((perform_for env id user admin input s q.ticket c (some shop) w).providers shop).accepting
      ≡ true
unfolding perform_for
perform_frees env id user shop admin input s c w q f a e h =
    elim (Bool-cases (is_tower_cancel s q.ticket c)) [
      | inl k ↦ rw k (
          requeue_frees env id user shop (next_place input (w.jobs id).place) input.reason q.ticket
            w h)
      | inr d ↦ rw d (change_frees env id user shop admin s c w q f a e h)
    ]

-- When a request to resolve or to cancel a ticket is accepted, and the shop assigned to the ticket
-- is a stored tower, the tower accepts requests again, also when it gave the job back itself.
pub ended_job_frees_tower :
    (env : Env) (id user shop : ℕ) (admin b : Bool) (input : UpdateInput) (s : TicketStatus)
    (w : DispatchWorld) (q : TicketRow)
    → input.status ≡ some s
    → ends s ≡ true
    → find_row id w ≡ some q
    → q.ticket.assigned_shop_id ≡ some shop
    → is_some (shop_at shop w) ≡ true
    → is_tow_provider (w.providers shop).kind ≡ true
    → (update_dispatch_status env id user (some admin) input w).1 ≡ ok b
    → ((update_dispatch_status env id user (some admin) input w).0.providers shop).accepting ≡ true
unfolding update_found perform
ended_job_frees_tower env id user shop admin b input s w q k e f a stored kind got =
    let t = q.ticket in
    let c = caller_for user admin t w in
    let known = update_known env id user admin input s w q k f in
    elim (Result-cases (check_update env id s t c w)) [
      | inr (x, r) ↦
          let refusal : update_dispatch_status env id user (some admin) input w ≡ (w, err x) =
            known ∙ rw (r, update_found) refl in
          let no_way : err x ≡ ok b = subst (λ y. y.1 ≡ ok b) refusal got in cc no_way
      | inl (u, r) ↦
          let same : (update_dispatch_status env id user (some admin) input w).0
              ≡ perform_for env id user admin input s t c t.assigned_shop_id w =
            ap (λ x. x.0) known ∙ rw (r, update_found) refl in
          let all = same ∙ ap (λ o. perform_for env id user admin input s t c o w) a in
          subst (λ v. (v.providers shop).accepting ≡ true) (sym all)
            (perform_frees env id user shop admin input s c w q f a e (stored, kind))
    ]
