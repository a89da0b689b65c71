-- ===== src/Subscription.antt =====
-- service/subscriptionService.ts and constants/subscriptions.ts: a user pays for a plan, and each
-- payment extends the subscription once. A checkout's fields are left out, and so is the refusal of
-- an id that names no plan.
pub mod Laws
use roadassistapp_be.Payment.{subscription}
use roadassistapp_be.Base.{
  ℕ, zero, suc, ◌+◌, ◌*◌, Bool, true, false, not, ◌&&◌, ◌||◌, Option, none, some, List, [], ◌∷◌,
  ltb, ◌==◌, if◌then◌else◌, is_id,
}
use roadassistapp_be.Base.Int.{pos}
use roadassistapp_be.Base.Result.{Result, require, validation, not_found, conflict, ok, err}
use roadassistapp_be.Base.Store.{get_row, update_row}
use roadassistapp_be.PaymentStatus.{PaymentMethod, pending, cash, sepay}
use roadassistapp_be.Payment.{
  is_subscription, Payment, CreatePaymentInput, Store, Created, create_guarded, clear_guard,
}
use roadassistapp_be.Payment.World.{Config}

-- The keys of SUBSCRIPTION_PLANS.
pub data PlanId : Type 0 where
  weekly monthly yearly : PlanId

-- SubscriptionPlan
pub record Plan : Type 0 where
  pub plan_id : PlanId
  pub amount : ℕ
  pub days : ℕ

-- SUBSCRIPTION_PLANS
abbrev pub subscription_plan : PlanId → Plan
subscription_plan weekly = record { plan_id = weekly; amount = 40000; days = 7 }
subscription_plan monthly = record { plan_id = monthly; amount = 200000; days = 30 }
subscription_plan yearly = record { plan_id = yearly; amount = 1500000; days = 365 }

-- The times are milliseconds, and the payments stand latest first.
pub record StoredSubscription : Type 0 where
  pub plan_id : PlanId
  pub started_at : ℕ
  pub expires_at : ℕ
  pub last_payment_id : Option ℕ
  pub payment_ids : List ℕ

pub record Subscriber : Type 0 where
  pub id : ℕ
  pub subscription : Option StoredSubscription

abbrev pub subscriber_id : Subscriber → ℕ
subscriber_id u = u.id

abbrev pub has_id : ℕ → List ℕ → Bool
has_id a [] = false
has_id a (b ∷ bs) = b == a || has_id a bs

-- The first of a list, no more than so many.
unfoldable pub first_ids : ℕ → List ℕ → List ℕ
first_ids zero ids = []
first_ids (suc n) [] = []
first_ids (suc n) (a ∷ rest) = a ∷ first_ids n rest

-- SUBSCRIPTION_PAYMENT_HISTORY
abbrev pub payment_history : ℕ
payment_history = 50

abbrev pub day_ms : ℕ
day_ms = 24 * 60 * 60 * 1000

-- The end of what is already paid, or the time.
abbrev pub base_ms : ℕ → Option StoredSubscription → ℕ
base_ms now none = now
base_ms now (some s) = if ltb now s.expires_at then s.expires_at else now

abbrev pub ids_of : Option StoredSubscription → List ℕ
ids_of none = []
ids_of (some s) = s.payment_ids

abbrev pub is_counted : ℕ → Option StoredSubscription → Bool
is_counted payment none = false
is_counted payment (some s) = has_id payment s.payment_ids || is_id s.last_payment_id payment

unfoldable pub extended : ℕ → PlanId → ℕ → Option StoredSubscription → StoredSubscription
unfolding first_ids
extended now plan payment current = record {
  plan_id = plan;
  started_at = now;
  expires_at = base_ms now current + (subscription_plan plan).days * day_ms;
  last_payment_id = some payment;
  payment_ids = first_ids payment_history (payment ∷ ids_of current);
}

abbrev pub put_subscription : StoredSubscription → Subscriber → Subscriber
put_subscription s u = record u { subscription = some s }

abbrev activate_counted : ℕ → PlanId → ℕ → Subscriber → List Subscriber → List Subscriber
activate_counted now plan payment u users =
    if is_counted payment u.subscription
    then users
    else update_row subscriber_id u.id (put_subscription (extended now plan payment u.subscription))
        users

-- `activate`: the users that it leaves, and whether it threw.
unfoldable pub activate : ℕ → ℕ → PlanId → ℕ → List Subscriber → List Subscriber × Result (Unit {0})
unfolding extended
activate now uid plan payment users = elim (get_row subscriber_id uid users) [
  | none ↦ (users, err (not_found "User not found"))
  | some u ↦ (activate_counted now plan payment u users, ok tt)
]

-- `normalizeSubscription`: whether a subscription is active at a time.
unfoldable pub is_active : ℕ → Option StoredSubscription → Bool
is_active now none = false
is_active now (some s) = ltb now s.expires_at

pub record SubscriptionWorld : Type 0 where
  pub users : List Subscriber
  pub store : Store

-- The subscription fields of a payment's document.
pub record SubscriptionFields : Type 0 where
  pub uid : Option ℕ
  pub plan : Option PlanId

abbrev after_activate :
    Payment → Store → List Subscriber × Result (Unit {0}) → SubscriptionWorld × Result Bool
after_activate p s (users, err e) = (record { users = users; store = s }, err e)
after_activate p s (users, ok u) =
    (record { users = users; store = clear_guard p.ticket_id p.id s }, ok true)

-- `activateFromPayment`: whether the payment is for a subscription, which it then activates.
unfoldable pub activate_from_payment :
    ℕ → Payment → SubscriptionFields → SubscriptionWorld → SubscriptionWorld × Result Bool
unfolding activate clear_guard
activate_from_payment now p fields w =
    if not (is_subscription p.purpose) then (w, ok false) else elim fields.uid [
      | none ↦ (w, err (validation "Subscription payment is missing its plan"))
      | some uid ↦ elim fields.plan [
        | none ↦ (w, err (validation "Subscription payment is missing its plan"))
        | some plan ↦ after_activate p w.store (activate now uid plan p.id w.users)
      ]
    ]

-- The payment of `createSubscriptionPayment`, to PLATFORM, whose id is `platform`; `ticket` stands for
-- `SUB-<user>-<plan>`.
abbrev subscription_input : ℕ → ℕ → ℕ → ℕ → PlanId → CreatePaymentInput
subscription_input platform ticket qr user plan = record {
  ticket_id = ticket;
  rider_uid = user;
  payee_id = platform;
  amount = (subscription_plan plan).amount;
  method = sepay;
  status = pending;
  qr_ref = some qr;
  commission_rate = some 0;
  commission_amount = some 0;
  payout_amount = some (pos 0);
  purpose = subscription;
}

abbrev is_sepay : PaymentMethod → Bool
is_sepay sepay = true
is_sepay cash = false

abbrev answer_payment : PaymentMethod → Store × Created → Store × Result Created
answer_payment method (s, c) =
    if c.reused && not (is_sepay c.payment.method)
    then (s, err (conflict "Subscription already has an active payment"))
    else (s, ok c)

-- `createSubscriptionPayment`
unfoldable pub create_subscription_payment :
    ℕ → ℕ → ℕ → ℕ → ℕ → Config → ℕ → PlanId → PaymentMethod → Store → Store × Result Created
unfolding create_guarded
create_subscription_payment id now qr platform ticket config user plan method s =
    if not (is_sepay method)
    then (s, err (validation "Subscriptions require SePay"))
    else if not (config.enabled method)
    then (s, err (validation "Payment method is disabled"))
    else answer_payment method
        (create_guarded id now (subscription_input platform ticket qr user plan) s)
