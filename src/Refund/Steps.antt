-- ===== src/Refund/Steps.antt =====
-- Refund requests and payments together: each step runs one handler of either.
use roadassistapp_be.Base.{
  ℕ, ◌≤◌, ◌≡◌, refl, sym, subst, inl, inr, Bool, true, Option, none, some, List, arith, Bool-cases,
  Option-cases, All,
}
use roadassistapp_be.Base.Result.{Result, Result-cases, ok, err}
use roadassistapp_be.Base.Store.{get_row, get_row-id}
use roadassistapp_be.Refund.{
  RefundStatus, is_open, is_asked, is_approved, is_payable, RefundRequest, request_id, RefundWorld,
  find_request, check_request, request_refund, write_request, decide_fields, decide_refund,
  sent_fields, mark_refund_sent, confirmed_fields, close_confirmed, after_refund, confirm_refund,
  failed_fields, fail_refund,
}
use roadassistapp_be.Refund.Laws.{
  open_count, IsSingle, write_request-IsSingle, open_request-IsSingle, open_request_store,
}
use roadassistapp_be.Payment.World.{RefundPolicy, World}
use roadassistapp_be.Payment.{Payment, find_payment}
use roadassistapp_be.Payment.Settle.{refund, amount_of}
use roadassistapp_be.Payment.Settle.Sound.{refund-IsSound}
use roadassistapp_be.Payment.Guarded.{is_accounted, IsSound}
use roadassistapp_be.Payment.Steps.{Step, Step-IsSound}

pub data RefundStep : RefundWorld → RefundWorld → Type 0 where
  requests :
      (policy : RefundPolicy) (id now payment by : ℕ) (caller : Option Bool) (amount : Option ℕ)
      (automatic : Bool) (w : RefundWorld)
      → find_request id w ≡ none
      → RefundStep w (request_refund policy id now payment by caller amount automatic w).0
  decides :
      (admin now id : ℕ) (approve : Bool) (w : RefundWorld)
      → RefundStep w (decide_refund admin now id approve w).0
  sends :
      (admin now id : ℕ) (ref : Option ℕ) (w : RefundWorld)
      → RefundStep w (mark_refund_sent admin now id ref w).0
  confirms :
      (policy : RefundPolicy) (admin now id : ℕ) (ref : Option ℕ) (w : RefundWorld)
      → RefundStep w (confirm_refund policy admin now id ref w).0
  fails : (admin now id : ℕ) (w : RefundWorld) → RefundStep w (fail_refund admin now id w).0
  pays :
      (w : RefundWorld) (v : World)
      → Step w.world v
      → RefundStep w (record { world = v; refunds = w.refunds })

pub data RefundSteps : RefundWorld → RefundWorld → Type 0 where
  done : (w : RefundWorld) → RefundSteps w w
  then : (a b c : RefundWorld) → RefundStep a b → RefundSteps b c → RefundSteps a c

-- The requests are single, and the payments sound.
unfoldable pub IsFair : RefundWorld → Type 0
IsFair w = IsSingle w.refunds × IsSound w.world.store

asked_open : (s : RefundStatus) → is_asked s ≡ true → is_open s ≡ true
asked_open s h = ground arith

approved_open : (s : RefundStatus) → is_approved s ≡ true → is_open s ≡ true
approved_open s h = ground arith

payable_open : (s : RefundStatus) → is_payable s ≡ true → is_open s ≡ true
payable_open s h = ground arith

-- A request that an id finds is stored under its own id.
pub found_request :
    (id : ℕ) (w : RefundWorld) {r : RefundRequest}
    → find_request id w ≡ some r
    → find_request r.id w ≡ some r
found_request id w {r} f =
    subst (λ x. find_request x w ≡ some r) (sym (get_row-id request_id id w.refunds f)) f

request_refund-IsFair :
    (policy : RefundPolicy) (id now payment by : ℕ) (caller : Option Bool) (amount : Option ℕ)
    (automatic : Bool) (w : RefundWorld)
    → find_request id w ≡ none
    → IsFair w
    → IsFair (request_refund policy id now payment by caller amount automatic w).0
unfolding IsFair request_refund
request_refund-IsFair policy id now payment by caller amount automatic w new h =
    elim (Option-cases (find_payment payment w.world.store)) [
      | inl n ↦ rw (n, request_refund) h
      | inr (p, n) ↦ elim (Result-cases (check_request policy by caller amount p)) [
        | inr (e, r) ↦ rw (n, r, request_refund) h
        | inl (k, r) ↦
            rw (n, r, request_refund)
              (
                open_request-IsSingle id now by automatic p k w new h.0,
                subst IsSound (sym (open_request_store id now by automatic p k w)) h.1,
              )
      ]
    ]

decide_refund-IsFair :
    (admin now id : ℕ) (approve : Bool) (w : RefundWorld)
    → IsFair w
    → IsFair (decide_refund admin now id approve w).0
unfolding IsFair decide_refund
decide_refund-IsFair admin now id approve w h = elim (Option-cases (find_request id w)) [
  | inl n ↦ rw (n, decide_refund) h
  | inr (r, n) ↦ elim (Bool-cases (is_asked r.status)) [
    | inr d ↦ rw (n, d, decide_refund) h
    | inl e ↦
        rw (n, e, decide_refund)
          (
            write_request-IsSingle r (decide_fields admin now approve) w (λ q. refl) (λ q. refl)
                (found_request id w n) (asked_open r.status e) h.0,
            h.1,
          )
  ]
]

mark_refund_sent-IsFair :
    (admin now id : ℕ) (ref : Option ℕ) (w : RefundWorld)
    → IsFair w
    → IsFair (mark_refund_sent admin now id ref w).0
unfolding IsFair mark_refund_sent
mark_refund_sent-IsFair admin now id ref w h = elim (Option-cases (find_request id w)) [
  | inl n ↦ rw (n, mark_refund_sent) h
  | inr (r, n) ↦ elim (Bool-cases (is_approved r.status)) [
    | inr d ↦ rw (n, d, mark_refund_sent) h
    | inl e ↦
        rw (n, e, mark_refund_sent)
          (
            write_request-IsSingle r (sent_fields admin now ref) w (λ q. refl) (λ q. refl)
                (found_request id w n) (approved_open r.status e) h.0,
            h.1,
          )
  ]
]

fail_refund-IsFair :
    (admin now id : ℕ) (w : RefundWorld) → IsFair w → IsFair (fail_refund admin now id w).0
unfolding IsFair fail_refund
fail_refund-IsFair admin now id w h = elim (Option-cases (find_request id w)) [
  | inl n ↦ rw (n, fail_refund) h
  | inr (r, n) ↦ elim (Bool-cases (is_payable r.status)) [
    | inr d ↦ rw (n, d, fail_refund) h
    | inl e ↦
        rw (n, e, fail_refund)
          (
            write_request-IsSingle r (failed_fields admin now) w (λ q. refl) (λ q. refl)
                (found_request id w n) (payable_open r.status e) h.0,
            h.1,
          )
  ]
]

after_refund-IsFair :
    (admin now : ℕ) (ref : Option ℕ) (r : RefundRequest) (p : Payment) (rows : List RefundRequest)
    (reply : World × Result (Option Payment))
    → get_row request_id r.id rows ≡ some r
    → is_open r.status ≡ true
    → IsSingle rows
    → IsSound reply.0.store
    → IsFair (after_refund admin now ref r p rows reply).0
unfolding IsFair close_confirmed write_request
after_refund-IsFair admin now ref r p rows (world, err e) f o single sound = (single, sound)
after_refund-IsFair admin now ref r p rows (world, ok u) f o single sound = (
  write_request-IsSingle r (confirmed_fields admin now ref)
      (record { world = world; refunds = rows }) (λ q. refl) (λ q. refl) f o single,
  sound,
)

confirm_refund-IsFair :
    (policy : RefundPolicy) (admin now id : ℕ) (ref : Option ℕ) (w : RefundWorld)
    → IsFair w
    → IsFair (confirm_refund policy admin now id ref w).0
unfolding confirm_refund IsFair
confirm_refund-IsFair policy admin now id ref w h = elim (Option-cases (find_request id w)) [
  | inl n ↦ rw (n, confirm_refund) h
  | inr (r, n) ↦ elim (Bool-cases (is_payable r.status)) [
    | inr d ↦ rw (n, d, confirm_refund) h
    | inl e ↦ elim (Option-cases (find_payment r.payment_id w.world.store)) [
      | inl m ↦ rw (n, e, m, confirm_refund) h
      | inr (p, m) ↦
          rw (n, e, m, confirm_refund)
            (after_refund-IsFair admin now ref r p w.refunds
              (refund policy (amount_of r.amount) (some admin) now r.payment_id w.world)
              (found_request id w n) (payable_open r.status e) h.0
              (refund-IsSound policy (amount_of r.amount) (some admin) now r.payment_id w.world
                h.1))
    ]
  ]
]

step-IsFair : (a b : RefundWorld) → RefundStep a b → IsFair a → IsFair b
unfolding IsFair
step-IsFair _ _ (requests policy id now payment by caller amount automatic w new) h =
    request_refund-IsFair policy id now payment by caller amount automatic w new h
step-IsFair _ _ (decides admin now id approve w) h = decide_refund-IsFair admin now id approve w h
step-IsFair _ _ (sends admin now id ref w) h = mark_refund_sent-IsFair admin now id ref w h
step-IsFair _ _ (confirms policy admin now id ref w) h =
    confirm_refund-IsFair policy admin now id ref w h
step-IsFair _ _ (fails admin now id w) h = fail_refund-IsFair admin now id w h
step-IsFair _ _ (pays w v s) h = (h.0, Step-IsSound w.world v s h.1)

pub steps-IsFair : (a b : RefundWorld) → RefundSteps a b → IsFair a → IsFair b
steps-IsFair _ _ (done w) h = h
steps-IsFair _ _ (then a b c s rest) h = steps-IsFair b c rest (step-IsFair a b s h)

-- After any sequence of refund handlers and payment handlers from a fair state, such as an empty
-- one, a payment has at most one open refund request, and every payment's refunds fit its status
-- and do not exceed its amount.
pub refund_steps_fair :
    (a b : RefundWorld) (payment : ℕ)
    → IsFair a
    → RefundSteps a b
    → (open_count payment b.refunds ≤ 1) × All (λ p. is_accounted p ≡ true) b.world.store.payments
unfolding IsFair IsSingle IsSound
refund_steps_fair a b payment h s =
    let fair = steps-IsFair a b s h in (fair.0.1 payment, fair.1.1.1)
