-- ===== src/Dispatch/Money/Asked.antt =====
-- Closing a ticket's payments, when refunds are given in full and one rider paid: nothing stays
-- pending, and every payment received has an open request.
use roadassistapp_be.Base.{
  ℕ, ◌-◌, ◌<◌, ◌≡◌, refl, sym, subst, inl, inr, Bool, true, false, not, ◌&&◌, none, some, List, [],
  ◌∷◌, arith, ltb, leb, ◌==◌, ==_iff, Bool-cases, Option-cases, is_some, All, All-map, All-zip,
}
use roadassistapp_be.Base.Result.{Result-cases, ok}
use roadassistapp_be.Base.Store.{IsKeyed-All}
use roadassistapp_be.Payment.{Payment, payment_id, Store, find_payment, find_by_ticket}
use roadassistapp_be.PaymentStatus.{PaymentStatus, is_received, is_pending}
use roadassistapp_be.Payment.World.{full_refunds}
use roadassistapp_be.Payment.Settle.{already_refunded, cancel_pending_payments}
use roadassistapp_be.Payment.Settle.Cancelled.{
  HasNoPending, cancel_pending_payments_none, cancel_pending_payments-All,
}
use roadassistapp_be.Payment.Settle.Sound.{cancel_pending_payments-IsSound}
use roadassistapp_be.Payment.Guarded.{accounts, is_accounted, IsSound, All-find_by_ticket}
use roadassistapp_be.Refund.{
  RefundRequest, RefundWorld, find_open_by_payment, new_request, check_request, open_request,
  request_refund,
}
use roadassistapp_be.Refund.Steps.{IsFair}
use roadassistapp_be.Dispatch.{Env}
use roadassistapp_be.Dispatch.Money.{request_refunds, close_payments}
use roadassistapp_be.Dispatch.Money.Steps.{request_refund_world, request_refunds_world}

-- A received payment that a request of the user can give back.
abbrev IsDue : ℕ → Store → Payment → Type 0
IsDue user s p =
    is_received p.status ≡ true
    → (find_payment p.id s ≡ some p) × ((p.rider_uid ≡ user) × (already_refunded p < p.amount))

abbrev has_open : ℕ → List RefundRequest → Bool
has_open payment rows = is_some (find_open_by_payment payment rows)

full_passes :
    (user : ℕ) (admin : Bool) (p : Payment)
    → is_received p.status ≡ true
    → p.rider_uid ≡ user
    → already_refunded p < p.amount
    → check_request full_refunds user (some admin) none p ≡ ok (p.amount - already_refunded p)
unfolding check_request
full_passes user admin p r u a =
    let me : (p.rider_uid == user) ≡ true = (==_iff p.rider_uid user).1 u in
    let some_left : leb p.amount (already_refunded p) ≡ false = ground (arith, a) in
    let positive : leb (p.amount - already_refunded p) 0 ≡ false = ground (arith, a) in
    let fits : ltb (p.amount - already_refunded p) (p.amount - already_refunded p) ≡ false =
      ground arith in
    let allowed : (not admin && not (p.rider_uid == user)) ≡ false = ground (arith, me) in
    rw (allowed, r, some_left, positive, fits) refl

open_request_opens :
    (id now by : ℕ) (p : Payment) (n : ℕ) (w : RefundWorld)
    → (r : RefundRequest) × (((open_request id now by true p n w).1 ≡ ok r)
        × (has_open p.id (open_request id now by true p n w).0.refunds ≡ true))
unfolding find_open_by_payment new_request
open_request_opens id now by p n w = elim (Option-cases (find_open_by_payment p.id w.refunds)) [
  | inl e ↦
      let r = new_request id now by true p n in
      let mine : (p.id == p.id) ≡ true = (==_iff p.id p.id).1 refl in
      rw (e, open_request) (r, (refl, rw mine refl))
  | inr (r, e) ↦ rw (e, open_request) (r, (refl, rw e refl))
]

-- A request that is open stays open when others are filed.
open_request_keeps :
    (id now by payment : ℕ) (p : Payment) (n : ℕ) (w : RefundWorld)
    → has_open payment w.refunds ≡ true
    → has_open payment (open_request id now by true p n w).0.refunds ≡ true
unfolding find_open_by_payment new_request
open_request_keeps id now by payment p n w h =
    elim (Option-cases (find_open_by_payment p.id w.refunds)) [
      | inl e ↦ rw (e, open_request) (ground (arith, h))
      | inr (r, e) ↦ rw (e, open_request) h
    ]

-- The request for a payment that is due: it is answered, and then open.
due_opens :
    (env : Env) (user : ℕ) (admin : Bool) (p : Payment) (w : RefundWorld)
    → env.refund_policy ≡ full_refunds
    → IsDue user w.world.store p
    → is_received p.status ≡ true
    → (r : RefundRequest) × (((request_refund env.refund_policy
            (env.fresh w)
            env.now
            p.id
            user
            (some admin)
            none
            true
            w).1
          ≡ ok r)
        × (has_open p.id
              (request_refund env.refund_policy
                (env.fresh w)
                env.now
                p.id
                user
                (some admin)
                none
                true
                w).0.refunds
            ≡ true))
unfolding request_refund
due_opens env user admin p w full due rec =
    let (f, who) = due rec in
    let pass =
      subst (λ x. check_request x user (some admin) none p ≡ ok (p.amount - already_refunded p))
        (sym full) (full_passes user admin p rec who.0 who.1) in
    rw (f, pass, request_refund)
      (open_request_opens (env.fresh w) env.now user p (p.amount - already_refunded p) w)

request_keeps :
    (env : Env) (user payment : ℕ) (admin : Bool) (p : Payment) (w : RefundWorld)
    → has_open payment w.refunds ≡ true
    → has_open payment
        (request_refund env.refund_policy
          (env.fresh w)
          env.now
          p.id
          user
          (some admin)
          none
          true
          w).0.refunds
      ≡ true
unfolding request_refund
request_keeps env user payment admin p w h = elim (Option-cases (find_payment p.id w.world.store)) [
  | inl e ↦ rw (e, request_refund) h
  | inr (q, e) ↦ elim (Result-cases (check_request env.refund_policy user (some admin) none q)) [
    | inr (x, c) ↦ rw (e, c, request_refund) h
    | inl (n, c) ↦
        rw (e, c, request_refund) (open_request_keeps (env.fresh w) env.now user payment q n w h)
  ]
]

loop_keeps :
    (env : Env) (user payment : ℕ) (admin : Bool) (rows : List Payment) (w : RefundWorld)
    → has_open payment w.refunds ≡ true
    → has_open payment (request_refunds env user admin rows w).refunds ≡ true
unfolding request_refunds
loop_keeps env user payment admin [] w h = h
loop_keeps env user payment admin (p ∷ rows) w h =
    let reply =
      request_refund env.refund_policy (env.fresh w) env.now p.id user (some admin) none true w in
    let kept = request_keeps env user payment admin p w h in
    elim (Bool-cases (is_received p.status)) [
      | inr d ↦ rw d (loop_keeps env user payment admin rows w h)
      | inl e ↦ elim (Result-cases reply.1) [
        | inl (r, k) ↦ rw (e, k) (loop_keeps env user payment admin rows reply.0 kept)
        | inr (x, k) ↦ rw (e, k) kept
      ]
    ]

abbrev IsAsked : List RefundRequest → Payment → Type 0
IsAsked refunds p = is_received p.status ≡ true → has_open p.id refunds ≡ true

-- When every payment is due, the loop reaches its end, and leaves an open request for each.
loop_asks :
    (env : Env) (user : ℕ) (admin : Bool) (rows : List Payment) (w : RefundWorld)
    → env.refund_policy ≡ full_refunds
    → All (IsDue user w.world.store) rows
    → All (IsAsked (request_refunds env user admin rows w).refunds) rows
unfolding request_refunds
loop_asks env user admin [] w full due = tt
loop_asks env user admin (p ∷ rows) w full due = elim (Bool-cases (is_received p.status)) [
  | inr d ↦
      let rest = loop_asks env user admin rows w full due.1 in
      let same : request_refunds env user admin (p ∷ rows) w
          ≡ request_refunds env user admin rows w =
        rw d refl in
      subst (λ x. All (IsAsked x.refunds) (p ∷ rows)) (sym same) ((λ a. cc (a, d)), rest)
  | inl e ↦
      let reply =
        request_refund env.refund_policy (env.fresh w) env.now p.id user (some admin) none true w in
      let (r, o) = due_opens env user admin p w full due.0 e in
      let next = request_refunds env user admin rows reply.0 in
      let same : request_refunds env user admin (p ∷ rows) w ≡ next = rw (e, o.0) refl in
      let still =
        subst (λ x. All (IsDue user x.store) rows) (sym (request_refund_world env p user admin w))
          due.1 in
      subst (λ x. All (IsAsked x.refunds) (p ∷ rows)) (sym same)
        (
          λ a. loop_keeps env user p.id admin rows reply.0 o.1,
          loop_asks env user admin rows reply.0 full still,
        )
]

-- What holds of each payment that a ticket's query finds, holds of each payment of the ticket.
found-All :
    (P : Payment → Type 0) (t : ℕ) (rows : List Payment)
    → All P (find_by_ticket t rows)
    → All (λ p. p.ticket_id ≡ t → P p) rows
unfolding find_by_ticket
found-All P t [] h = tt
found-All P t (p ∷ rows) h = elim (Bool-cases (p.ticket_id == t)) [
  | inr d ↦ (λ e. cc (d, (==_iff p.ticket_id t).1 e), found-All P t rows (rw d at h))
  | inl e ↦
      let k : P p × All P (find_by_ticket t rows) = rw e at h in (λ _. k.0, found-All P t rows k.1)
]

pub found_own : (t : ℕ) (rows : List Payment) → All (λ p. p.ticket_id ≡ t) (find_by_ticket t rows)
unfolding find_by_ticket
found_own t [] = tt
found_own t (p ∷ rows) = elim (Bool-cases (p.ticket_id == t)) [
  | inr d ↦ rw d (found_own t rows)
  | inl e ↦ rw e ((==_iff p.ticket_id t).0 e, found_own t rows)
]

-- The rider paid for the ticket, and more than nothing.
abbrev pub IsPaidBy : ℕ → ℕ → Payment → Type 0
IsPaidBy user id p = p.ticket_id ≡ id → (p.rider_uid ≡ user) × (0 < p.amount)

-- Nothing of the ticket is pending, and what is received is asked back.
abbrev pub IsWoundUp : ℕ → List RefundRequest → Payment → Type 0
IsWoundUp id refunds p =
    p.ticket_id ≡ id
    → (is_pending p.status ≡ false)
      × (is_received p.status ≡ true → is_some (find_open_by_payment p.id refunds) ≡ true)

received_left :
    (s : PaymentStatus) (refunds amount : ℕ)
    → accounts s refunds amount ≡ true
    → is_received s ≡ true
    → 0 < amount
    → refunds < amount
unfolding accounts
received_left s refunds amount a r p = ground arith

pub close_asks :
    (env : Env) (user : ℕ) (admin : Bool) (id : ℕ) (m : RefundWorld)
    → env.refund_policy ≡ full_refunds
    → IsFair m
    → All (IsPaidBy user id) m.world.store.payments
    → All
        (IsWoundUp id (close_payments env user admin id m).refunds)
        (close_payments env user admin id m).world.store.payments
unfolding close_payments IsFair IsSound
close_asks env user admin id m full fair paid =
    let closed = record m { world = cancel_pending_payments id m.world } in
    let s = closed.world.store in
    let sound : IsSound s = cancel_pending_payments-IsSound id m.world fair.1 in
    let own : All (IsPaidBy user id) s.payments =
      cancel_pending_payments-All (IsPaidBy user id) id m.world (λ q k. k) paid in
    let each =
      All-zip (IsPaidBy user id) (λ p. (find_payment p.id s ≡ some p) × (is_accounted p ≡ true))
        s.payments own
        (All-zip (λ p. find_payment p.id s ≡ some p) (λ p. is_accounted p ≡ true) s.payments
          (IsKeyed-All payment_id s.payments sound.0) sound.1.1) in
    let rows = find_by_ticket id s.payments in
    let fits =
      All-map
        (λ p.
          (IsPaidBy user id p × ((find_payment p.id s ≡ some p) × (is_accounted p ≡ true)))
          × (p.ticket_id ≡ id))
        (IsDue user s)
        (λ p k r.
          let who = k.0.0 k.1 in
          (k.0.1.0, (who.0, received_left p.status (already_refunded p) p.amount k.0.1.1 r who.1)))
        rows
        (All-zip
          (λ p. IsPaidBy user id p × ((find_payment p.id s ≡ some p) × (is_accounted p ≡ true)))
          (λ p. p.ticket_id ≡ id) rows (All-find_by_ticket _ id s.payments each)
          (found_own id s.payments)) in
    let after = request_refunds env user admin rows closed in
    let asked =
      found-All (IsAsked after.refunds) id s.payments
        (loop_asks env user admin rows closed full fits) in
    subst (λ x. All (IsWoundUp id after.refunds) x.store.payments)
      (sym (request_refunds_world env user admin rows closed))
      (All-map (λ p. HasNoPending id p × (p.ticket_id ≡ id → IsAsked after.refunds p))
        (IsWoundUp id after.refunds) (λ p k e. (k.0 e, k.1 e)) s.payments
        (All-zip (HasNoPending id) (λ p. p.ticket_id ≡ id → IsAsked after.refunds p) s.payments
          (cancel_pending_payments_none id m.world) asked))
