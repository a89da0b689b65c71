-- ===== src/Transition/Edges.antt =====
-- The moves that assertTransition.ts lets a caller who is no admin make, as a relation that has one
-- rule for each party's right, with none of the order in which the code tests them.
use roadassistapp_be.Base.{◌≡◌, ◌≢◌, ◌↔◌, ◌⊎◌, inl, inr, true, false, arith, Bool-cases}
use roadassistapp_be.Base.Result.{ok}
use roadassistapp_be.Status.{
  TicketStatus, pending, matched, arrived, resolved, cancelled, in_progress, ready, declined,
  quoted, in_shop, est_approved, TicketType, sos, tow, mechanic, walk_in, is_terminal,
}
use roadassistapp_be.Transition.{View, Caller, assert_transition}

abbrev IsOnTow : Caller → Type 0
IsOnTow c = (c.is_operator ≡ true) ⊎ (c.is_assignee ≡ true)

abbrev IsShopTicket : TicketType → Type 0
IsShopTicket ty = (ty ≡ mechanic) ⊎ (ty ≡ walk_in)

pub data Allowed (t : View) (c : Caller) (s : TicketStatus) : Type 0 where
  tower_arrives : t.ticket_type ≡ tow → t.status ≡ matched → IsOnTow c → s ≡ arrived → Allowed t c s
  rider_marks_arrival :
      t.ticket_type ≢ tow → t.status ≡ matched → c.is_rider ≡ true → s ≡ arrived → Allowed t c s
  shop_receives :
      IsShopTicket t.ticket_type
      → (t.status ≡ arrived)
        ⊎ ((t.status ≡ matched) ⊎ ((t.status ≡ quoted) ⊎ (t.status ≡ est_approved)))
      → c.is_operator ≡ true
      → s ≡ in_shop
      → Allowed t c s
  shop_starts :
      IsShopTicket t.ticket_type
      → t.status ≡ arrived
      → c.is_operator ≡ true
      → s ≡ in_progress
      → Allowed t c s
  walk_in_starts :
      t.ticket_type ≡ walk_in
      → t.status ≡ matched
      → t.quoted_amount ≡ false
      → c.is_operator ≡ true
      → s ≡ in_progress
      → Allowed t c s
  mobile_finishes :
      t.ticket_type ≡ sos → t.status ≡ arrived → c.is_operator ≡ true → s ≡ ready → Allowed t c s
  shop_finishes :
      IsShopTicket t.ticket_type
      → t.status ≡ in_progress
      → c.is_operator ≡ true
      → s ≡ ready
      → Allowed t c s
  tower_delivers :
      t.ticket_type ≡ tow → t.status ≡ arrived → IsOnTow c → s ≡ resolved → Allowed t c s
  rider_resolves :
      t.ticket_type ≢ tow
      → (t.status ≡ arrived) ⊎ (t.status ≡ ready)
      → c.is_rider ≡ true
      → s ≡ resolved
      → Allowed t c s
  rider_cancels :
      is_terminal t.status ≡ false
      → t.status ≢ in_progress
      → t.status ≢ in_shop
      → ¬ ((t.ticket_type ≡ sos) × (t.status ≡ ready))
      → c.is_rider ≡ true
      → s ≡ cancelled
      → Allowed t c s
  tower_cancels :
      t.ticket_type ≡ tow
      → (t.status ≡ matched) ⊎ (t.status ≡ arrived)
      → IsOnTow c
      → s ≡ cancelled
      → Allowed t c s
  mobile_cancels :
      t.ticket_type ≡ sos
      → t.status ≡ matched
      → c.is_operator ≡ true
      → s ≡ cancelled
      → Allowed t c s
  shop_declines :
      t.ticket_type ≡ walk_in
      → t.status ≡ pending
      → c.is_operator ≡ true
      → s ≡ declined
      → Allowed t c s

-- Every move of the relation is accepted by the code.
Allowed-accepted :
    (t : View) (c : Caller) (s : TicketStatus) → Allowed t c s → assert_transition t s c ≡ ok tt
unfolding assert_transition
Allowed-accepted t c s (tower_arrives a b d e) = ground arith
Allowed-accepted t c s (rider_marks_arrival a b d e) = ground arith
Allowed-accepted t c s (shop_receives a b d e) = ground arith
Allowed-accepted t c s (shop_starts a b d e) = ground arith
Allowed-accepted t c s (walk_in_starts a b d f e) = ground arith
Allowed-accepted t c s (mobile_finishes a b d e) = ground arith
Allowed-accepted t c s (shop_finishes a b d e) = ground arith
Allowed-accepted t c s (tower_delivers a b d e) = ground arith
Allowed-accepted t c s (rider_resolves a b d e) = ground arith
Allowed-accepted t c s (rider_cancels a b d f g e) = ground arith
Allowed-accepted t c s (tower_cancels a b d e) = ground arith
Allowed-accepted t c s (mobile_cancels a b d e) = ground arith
Allowed-accepted t c s (shop_declines a b d e) = ground arith

-- A move that the code accepts from a caller who is no admin is a move of the relation.
accepted-Allowed :
    (t : View) (c : Caller) (s : TicketStatus)
    → c.is_admin ≡ false
    → assert_transition t s c ≡ ok tt
    → Allowed t c s
unfolding assert_transition
accepted-Allowed t c pending a h = absurd (ground arith)
accepted-Allowed t c matched a h = absurd (ground arith)
accepted-Allowed t c arrived a h = grind (arith, tower_arrives, rider_marks_arrival)
accepted-Allowed t c resolved a h = grind (arith, tower_delivers, rider_resolves)
accepted-Allowed t c cancelled a h = grind (arith, rider_cancels, tower_cancels, mobile_cancels)
accepted-Allowed t c in_progress a h = grind (arith, shop_starts, walk_in_starts)
accepted-Allowed t c ready a h = grind (arith, mobile_finishes, shop_finishes)
accepted-Allowed t c declined a h = grind (arith, shop_declines)
accepted-Allowed t c in_shop a h = grind (arith, shop_receives)
accepted-Allowed t c _ a h = absurd (ground arith)

admin_accepted :
    (t : View) (c : Caller) (s : TicketStatus) → c.is_admin ≡ true → assert_transition t s c ≡ ok tt
unfolding assert_transition
admin_accepted t c s a = ground arith

pub assert_transition_iff :
    (t : View) (c : Caller) (s : TicketStatus)
    → (assert_transition t s c ≡ ok tt) ↔ ((c.is_admin ≡ true) ⊎ Allowed t c s)
assert_transition_iff t c s = (
  λ h. elim (Bool-cases c.is_admin) [ inl a ↦ inl a | inr n ↦ inr (accepted-Allowed t c s n h) ],
  λ h. elim h [ inl a ↦ admin_accepted t c s a | inr m ↦ Allowed-accepted t c s m ],
)
