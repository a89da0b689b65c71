-- ===== src/Examples/Subscriptions.antt =====
-- Examples of the theorems on subscriptions: a user pays for a month, and then for a week.
use roadassistapp_be.Base.{◌+◌, ◌≡◌, refl, none, some, List, [], ◌∷◌, arith}
use roadassistapp_be.Base.Store.{get_row}
use roadassistapp_be.Subscription.{
  StoredSubscription, Subscriber, subscriber_id, activate, weekly, monthly,
}
use roadassistapp_be.Subscription.Laws.{Delivery, deliver_all, count_of, payment_extends_once}

abbrev one_user : List Subscriber
one_user = record { id = 7; subscription = none } ∷ []

abbrev a_week : Delivery
a_week = record { at = 2000; plan = weekly; payment = 41 }

payment_extends_once_example :
    (s : StoredSubscription) × (get_row subscriber_id 7 (activate 1000 7 monthly 40 one_user).0
      ≡ some (record { id = 7; subscription = some s }))
    × (s.plan_id ≡ monthly)
    × (s.last_payment_id ≡ some 40)
    × (s.expires_at ≡ 1000 + 2592000000)
    × ((activate 3000 7 monthly 40
          (deliver_all 7 (a_week ∷ []) (activate 1000 7 monthly 40 one_user).0)).0
        ≡ deliver_all 7 (a_week ∷ []) (activate 1000 7 monthly 40 one_user).0)
unfolding count_of
payment_extends_once_example =
    payment_extends_once 1000 3000 7 40 monthly monthly (a_week ∷ []) one_user refl refl
      (omega arith)
