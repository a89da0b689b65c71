-- ===== src/Subscription/Laws.antt =====
-- A payment extends a subscription once, however often it is delivered.
use roadassistapp_be.Base.{
  ℕ, zero, suc, ◌+◌, ◌≤◌, ◌<◌, ◌≡◌, refl, sym, ap, subst, inl, inr, max, Bool, true, false, Option,
  none, some, List, [], ◌∷◌, arith, Bool-cases, Option-cases,
}
use roadassistapp_be.Base.Store.{get_row, update_row, get_row-id, get_row-update_row}
use roadassistapp_be.Subscription.{
  PlanId, weekly, monthly, yearly, StoredSubscription, Subscriber, subscriber_id, has_id, first_ids,
  payment_history, ids_of, is_counted, extended, put_subscription, activate,
}

-- A notification of a payment: when it comes, the plan and the payment.
pub record Delivery : Type 0 where
  pub at : ℕ
  pub plan : PlanId
  pub payment : ℕ

-- The users, after some notifications for one of them.
unfoldable pub deliver_all : ℕ → List Delivery → List Subscriber → List Subscriber
unfolding activate
deliver_all uid [] users = users
deliver_all uid (d ∷ ds) users = deliver_all uid ds (activate d.at uid d.plan d.payment users).0

unfoldable pub count_of : List Delivery → ℕ
count_of [] = 0
count_of (d ∷ ds) = 1 + count_of ds

has_first_more :
    (a n : ℕ) (ids : List ℕ)
    → has_id a (first_ids n ids) ≡ true
    → has_id a (first_ids (suc n) ids) ≡ true
unfolding first_ids
has_first_more a zero ids h = cc h
has_first_more a (suc n) [] h = cc h
has_first_more a (suc n) (b ∷ ids) h = ground (arith, has_first_more a n ids)

-- The first `n` of the first `k`, for `n` at most `k`.
first_first : (n k : ℕ) (ids : List ℕ) → n ≤ k → first_ids n (first_ids k ids) ≡ first_ids n ids
unfolding first_ids
first_first zero k ids h = refl
first_first (suc n) zero ids h = absurd (omega arith)
first_first (suc n) (suc k) [] h = refl
first_first (suc n) (suc k) (a ∷ ids) h = ap (λ t. a ∷ t) (first_first n k ids (omega arith))

has_first : (a n : ℕ) (ids : List ℕ) → has_id a (first_ids n ids) ≡ true → has_id a ids ≡ true
unfolding first_ids
has_first a zero ids h = cc h
has_first a (suc n) [] h = cc h
has_first a (suc n) (b ∷ ids) h = ground (arith, has_first a n ids)

-- Whether a payment is among the latest `n` of a user.
abbrev recent_in : ℕ → ℕ → Option Subscriber → Bool
recent_in a n none = false
recent_in a n (some u) = has_id a (first_ids n (ids_of u.subscription))

abbrev recent : ℕ → ℕ → ℕ → List Subscriber → Bool
recent uid a n users = recent_in a n (get_row subscriber_id uid users)

get_row_self :
    (uid : ℕ) (users : List Subscriber) {u : Subscriber}
    → get_row subscriber_id uid users ≡ some u
    → get_row subscriber_id u.id users ≡ some u
get_row_self uid users {u} h =
    subst (λ x. get_row subscriber_id x users ≡ some u) (sym (get_row-id subscriber_id uid users h))
      h

activate_found :
    (now uid payment : ℕ) (plan : PlanId) (users : List Subscriber) {u : Subscriber}
    → get_row subscriber_id uid users ≡ some u
    → is_counted payment u.subscription ≡ false
    → get_row subscriber_id uid (activate now uid plan payment users).0
      ≡ some (put_subscription (extended now plan payment u.subscription) u)
unfolding activate
activate_found now uid payment plan users {u} h new =
    let i = get_row-id subscriber_id uid users h in
    rw (h, new, activate)
      (subst
        (λ x.
          get_row subscriber_id x (
            update_row subscriber_id u.id
              (put_subscription (extended now plan payment u.subscription)) users)
          ≡ some (put_subscription (extended now plan payment u.subscription) u))
        i
        (get_row-update_row subscriber_id u.id
          (put_subscription (extended now plan payment u.subscription)) users (λ q. refl)
          (get_row_self uid users h)))

activate_counted_same :
    (now uid payment : ℕ) (plan : PlanId) (users : List Subscriber) {u : Subscriber}
    → get_row subscriber_id uid users ≡ some u
    → is_counted payment u.subscription ≡ true
    → (activate now uid plan payment users).0 ≡ users
unfolding activate
activate_counted_same now uid payment plan users h old = rw (h, old, activate) refl

-- A new payment moves the others by one.
extended_recent :
    (now a q n : ℕ) (plan : PlanId) (current : Option StoredSubscription)
    → n < payment_history
    → has_id a (first_ids n (ids_of current)) ≡ true
    → has_id a (first_ids (suc n) (extended now plan q current).payment_ids) ≡ true
unfolding extended first_ids
extended_recent now a q n plan current l h =
    let cut = first_first (suc n) payment_history (q ∷ ids_of current) (omega arith) in
    let shifted : has_id a (first_ids (suc n) (q ∷ ids_of current)) ≡ true = ground (arith, h) in
    subst (λ t. has_id a t ≡ true) (sym cut) shifted

extended_first :
    (now q : ℕ) (plan : PlanId) (current : Option StoredSubscription)
    → has_id q (first_ids 1 (extended now plan q current).payment_ids) ≡ true
unfolding extended first_ids
extended_first now q plan current =
    let cut = first_first 1 payment_history (q ∷ ids_of current) (omega arith) in
    let self : has_id q (first_ids 1 (q ∷ ids_of current)) ≡ true = ground arith in
    subst (λ t. has_id q t ≡ true) (sym cut) self

counted_ids :
    (a : ℕ) (s : Option StoredSubscription) → has_id a (ids_of s) ≡ true → is_counted a s ≡ true
counted_ids a none h = cc h
counted_ids a (some s) h = rw h refl

recent_counted :
    (uid a n : ℕ) (users : List Subscriber)
    → recent uid a n users ≡ true
    → (u : Subscriber) × (get_row subscriber_id uid users ≡ some u)
      × (is_counted a u.subscription ≡ true)
recent_counted uid a n users h = elim (Option-cases (get_row subscriber_id uid users)) [
  | inl none_found ↦ let no : false ≡ true = rw none_found at h in cc no
  | inr (u, found) ↦
      let here : has_id a (first_ids n (ids_of u.subscription)) ≡ true = rw found at h in
      (u, found, counted_ids a u.subscription (has_first a n (ids_of u.subscription) here))
]

activate-recent :
    (now uid a q n : ℕ) (plan : PlanId) (users : List Subscriber)
    → n < payment_history
    → recent uid a n users ≡ true
    → recent uid a (suc n) (activate now uid plan q users).0 ≡ true
activate-recent now uid a q n plan users l h =
    elim (Option-cases (get_row subscriber_id uid users)) [
      | inl none_found ↦ let no : false ≡ true = rw none_found at h in cc no
      | inr (u, found) ↦
          let here : has_id a (first_ids n (ids_of u.subscription)) ≡ true = rw found at h in
          elim (Bool-cases (is_counted q u.subscription)) [
            | inl old ↦
                rw (activate_counted_same now uid q plan users found old, found)
                  (has_first_more a n (ids_of u.subscription) here)
            | inr new ↦
                rw (activate_found now uid q plan users found new)
                  (extended_recent now a q n plan u.subscription l here)
          ]
    ]

deliver_all-recent :
    (uid a n : ℕ) (ds : List Delivery) (users : List Subscriber)
    → n + count_of ds ≤ payment_history
    → recent uid a n users ≡ true
    → recent uid a (n + count_of ds) (deliver_all uid ds users) ≡ true
unfolding deliver_all count_of
deliver_all-recent uid a n [] users l h = subst (λ k. recent uid a k users ≡ true) (omega arith) h
deliver_all-recent uid a n (d ∷ ds) users l h =
    let next = activate-recent d.at uid a d.payment n d.plan users (omega arith) h in
    let rest =
      deliver_all-recent uid a (suc n) ds (activate d.at uid d.plan d.payment users).0 (omega arith)
        next in
    subst
      (λ k. recent uid a k (deliver_all uid ds (activate d.at uid d.plan d.payment users).0) ≡ true)
      (omega arith) rest

-- How long each plan lasts, in milliseconds: 7, 30 and 365 days.
abbrev pub lasts_ms : PlanId → ℕ
lasts_ms weekly = 604800000
lasts_ms monthly = 2592000000
lasts_ms yearly = 31536000000

-- Until when a user has paid.
abbrev pub paid_until : Option StoredSubscription → ℕ
paid_until none = 0
paid_until (some s) = s.expires_at

extended_expires :
    (now payment : ℕ) (plan : PlanId) (current : Option StoredSubscription)
    → (extended now plan payment current).expires_at ≡ max now (paid_until current) + lasts_ms plan
unfolding extended
extended_expires now payment weekly current = ground arith
extended_expires now payment monthly current = ground arith
extended_expires now payment yearly current = ground arith

extended_fields :
    (now payment : ℕ) (plan : PlanId) (current : Option StoredSubscription)
    → ((extended now plan payment current).plan_id ≡ plan)
      × ((extended now plan payment current).last_payment_id ≡ some payment)
unfolding extended
extended_fields now payment plan current = (refl, refl)

-- A payment that is not counted yet extends the subscription from its end, or from now if that is
-- later, by 7, 30 or 365 days as its plan says; delivered again, after fewer than fifty other
-- notifications and for whatever plan, it changes nothing.
pub payment_extends_once :
    (now later uid payment : ℕ) (plan other : PlanId) (ds : List Delivery) (users : List Subscriber)
    {u : Subscriber}
    → get_row subscriber_id uid users ≡ some u
    → is_counted payment u.subscription ≡ false
    → count_of ds < payment_history
    → (s : StoredSubscription) × (get_row subscriber_id uid (activate now uid plan payment users).0
        ≡ some (record u { subscription = some s }))
      × (s.plan_id ≡ plan)
      × (s.last_payment_id ≡ some payment)
      × (s.expires_at ≡ max now (paid_until u.subscription) + lasts_ms plan)
      × ((activate later uid other payment
            (deliver_all uid ds (activate now uid plan payment users).0)).0
          ≡ deliver_all uid ds (activate now uid plan payment users).0)
payment_extends_once now later uid payment plan other ds users {u} h new few =
    let first = activate_found now uid payment plan users h new in
    let after = (activate now uid plan payment users).0 in
    let one : recent uid payment 1 after ≡ true =
      rw first (extended_first now payment plan u.subscription) in
    let still = deliver_all-recent uid payment 1 ds after (omega arith) one in
    let counted = recent_counted uid payment (1 + count_of ds) (deliver_all uid ds after) still in
    let fields = extended_fields now payment plan u.subscription in
    (
      extended now plan payment u.subscription,
      first,
      fields.0,
      fields.1,
      extended_expires now payment plan u.subscription,
      activate_counted_same later uid payment other (deliver_all uid ds after) counted.1 counted.2,
    )
