-- ===== src/Payment/World.antt =====
-- What the payment handlers read and write: the payments, the tickets with the payment stamped on
-- them, the shops, the commission ledger and the platform's configuration.
use roadassistapp_be.Base.{ℕ, Bool, Option, none, some, List, if◌then◌else◌}
use roadassistapp_be.Base.Result.{Result, ok, err, validation}
use roadassistapp_be.Base.Store.{get_row, update_row}
use roadassistapp_be.Status.{TicketType}
use roadassistapp_be.PaymentStatus.{PaymentStatus, PaymentMethod}
use roadassistapp_be.Ticket.{Ticket}
use roadassistapp_be.Commission.{CommissionEntry}
use roadassistapp_be.Payment.{Payment, Store, is_deposit}

-- A ticket's document, with the fields that payments stamp.
pub record TicketRow : Type 0 where
  pub ticket : Ticket
  pub payment_id : Option ℕ
  pub payment_method : Option PaymentMethod
  pub payment_status : Option PaymentStatus
  -- `checkoutUrl`, by the payment that its link opens.
  pub checkout_url : Option ℕ
  pub deposit_payment_id : Option ℕ
  pub booking_id : Option ℕ

abbrev pub row_id : TicketRow → ℕ
row_id r = r.ticket.id

pub record Shop : Type 0 where
  pub id : ℕ
  pub operator_uid : Option ℕ

abbrev pub shop_id : Shop → ℕ
shop_id s = s.id

pub data RefundPolicy : Type 0 where
  full_refunds partial_refunds no_refunds : RefundPolicy

pub record Config : Type 0 where
  -- `paymentMethodsEnabled.includes`
  pub enabled : PaymentMethod → Bool
  pub commission_rate : TicketType → ℕ
  pub refund_policy : RefundPolicy

pub record World : Type 0 where
  pub store : Store
  pub tickets : List TicketRow
  pub shops : List Shop
  pub commissions : List CommissionEntry
  -- The bookings whose deposit is marked as confirmed, the latest first.
  pub confirmed_bookings : List ℕ
  -- The payments handed to `subscriptionService.activateFromPayment`, the latest first.
  pub activated : List ℕ

-- A handler's reply: the state it leaves, also when it throws.
abbrev pub Reply : Type 0 → Type 0
Reply A = World × Result A

-- A payment as a handler returns it.
pub record PaymentWithCheckout : Type 0 where
  pub payment : Payment
  -- The payment that the `checkout` fields are for.
  pub checkout : Option ℕ
  pub reused : Bool

abbrev pub find_ticket : ℕ → World → Option TicketRow
find_ticket id w = get_row row_id id w.tickets

abbrev pub update_ticket : ℕ → (TicketRow → TicketRow) → World → World
update_ticket id f w = record w { tickets = update_row row_id id f w.tickets }

abbrev pub stamp : Payment → Option ℕ → TicketRow → TicketRow
stamp p checkout r = record r {
  payment_id = some p.id;
  payment_method = some p.method;
  payment_status = some p.status;
  checkout_url = elim checkout [ none ↦ r.checkout_url | some url ↦ some url ];
}

-- `stampTicketPayment`
unfoldable pub stamp_ticket_payment : ℕ → Payment → Option ℕ → World → World
stamp_ticket_payment ticket p checkout w =
    if is_deposit p.purpose then w else update_ticket ticket (stamp p checkout) w

abbrev operator_at : Option ℕ → List Shop → Option ℕ
operator_at none shops = none
operator_at (some id) shops = elim (get_row shop_id id shops) [
  | none ↦ none
  | some s ↦ s.operator_uid
]

abbrev pub first_some : {A : Type 0} → Option A → Option A → Option A
first_some (some a) b = some a
first_some none b = b

-- `resolvePayeeId`
unfoldable pub resolve_payee_id : Ticket → List Shop → Result ℕ
resolve_payee_id t shops =
    let by_shop =
      first_some (operator_at t.assigned_shop_id shops)
        (first_some (operator_at t.provider_id shops) (operator_at t.destination_shop_id shops)) in
    elim (first_some by_shop t.assigned_uid) [
      | some uid ↦ ok uid
      | none ↦ err (validation "Ticket has no payee yet")
    ]
