-- ===== src/Payment.antt =====
-- repository/paymentRepository.ts: the payments and the guard that keeps one active payment for a
-- ticket. The rows of the collection are kept latest first, the order of `byCreatedDesc`. A fresh
-- document id is an argument, as is the time.
pub mod World
pub mod Switch
pub mod Collect
pub mod Deposit
pub mod Settle
pub mod Guarded
pub mod Steps
use roadassistapp_be.Base.{
  ℕ, ◌==◌, Bool, true, false, Option, none, some, List, [], ◌∷◌, if◌then◌else◌, find,
}
use roadassistapp_be.Base.Int.{ℤ}
use roadassistapp_be.Base.Store.{get_row, update_row, delete_row}
use roadassistapp_be.PaymentStatus.{PaymentStatus, PaymentMethod, is_active, same_status}

-- `purpose`: null or missing for the balance of a ticket.
pub data Purpose : Type 0 where
  balance deposit subscription : Purpose

abbrev pub is_deposit : Purpose → Bool
is_deposit deposit = true
is_deposit _ = false

abbrev pub is_subscription : Purpose → Bool
is_subscription subscription = true
is_subscription _ = false

pub record Payment : Type 0 where
  pub id : ℕ
  pub ticket_id : ℕ
  pub rider_uid : ℕ
  pub payee_id : ℕ
  pub amount : ℕ
  pub method : PaymentMethod
  pub status : PaymentStatus
  pub qr_ref : Option ℕ
  pub ipn_ref : Option ℕ
  pub commission_rate : Option ℕ
  pub commission_amount : Option ℕ
  pub payout_amount : Option ℤ
  pub confirmed_by : Option ℕ
  pub confirmed_at : Option ℕ
  pub refund_amount : Option ℕ
  pub refunded_at : Option ℕ
  pub refunded_by : Option ℕ
  pub payout_ref : Option ℕ
  pub payout_at : Option ℕ
  pub payout_by : Option ℕ
  pub payout_batch_id : Option ℕ
  pub purpose : Purpose
  pub created_at : ℕ

abbrev pub payment_id : Payment → ℕ
payment_id p = p.id

-- What `createGuarded` is given.
pub record CreatePaymentInput : Type 0 where
  pub ticket_id : ℕ
  pub rider_uid : ℕ
  pub payee_id : ℕ
  pub amount : ℕ
  pub method : PaymentMethod
  pub status : PaymentStatus
  pub qr_ref : Option ℕ
  pub commission_rate : Option ℕ
  pub commission_amount : Option ℕ
  pub payout_amount : Option ℤ
  pub purpose : Purpose

-- `buildDoc`
unfoldable pub build_doc : ℕ → ℕ → CreatePaymentInput → Payment
build_doc id now input = record {
  id = id;
  ticket_id = input.ticket_id;
  rider_uid = input.rider_uid;
  payee_id = input.payee_id;
  amount = input.amount;
  method = input.method;
  status = input.status;
  qr_ref = input.qr_ref;
  ipn_ref = none;
  commission_rate = input.commission_rate;
  commission_amount = input.commission_amount;
  payout_amount = input.payout_amount;
  confirmed_by = none;
  confirmed_at = none;
  refund_amount = none;
  refunded_at = none;
  refunded_by = none;
  payout_ref = none;
  payout_at = none;
  payout_by = none;
  payout_batch_id = none;
  purpose = input.purpose;
  created_at = now;
}

-- A document of PAYMENT_GUARD_COLLECTION: the ticket that is its id, and the payment.
pub record Guard : Type 0 where
  pub ticket_id : ℕ
  pub payment_id : ℕ

abbrev pub guard_ticket : Guard → ℕ
guard_ticket g = g.ticket_id

pub record Store : Type 0 where
  pub payments : List Payment
  pub guards : List Guard

-- `findById`
abbrev pub find_payment : ℕ → Store → Option Payment
find_payment id s = get_row payment_id id s.payments

abbrev pub guard_of : ℕ → Store → Option Guard
guard_of ticket s = get_row guard_ticket ticket s.guards

abbrev when_active : Option Payment → Option Payment
when_active none = none
when_active (some p) = if is_active p.status then some p else none

abbrev guarded_by : Option Guard → Store → Option Payment
guarded_by none s = none
guarded_by (some g) s = when_active (find_payment g.payment_id s)

-- The active payment that the guard of a ticket names, if any.
unfoldable pub guarded_payment : ℕ → Store → Option Payment
guarded_payment ticket s = guarded_by (guard_of ticket s) s

pub record Created : Type 0 where
  pub payment : Payment
  pub reused : Bool

unfoldable pub insert_guarded : ℕ → ℕ → CreatePaymentInput → Store → Store
unfolding build_doc
insert_guarded id now input s = record {
  payments = build_doc id now input ∷ s.payments;
  guards =
      record { ticket_id = input.ticket_id; payment_id = id }
      ∷ delete_row guard_ticket input.ticket_id s.guards;
}

-- `createGuarded`
unfoldable pub create_guarded : ℕ → ℕ → CreatePaymentInput → Store → Store × Created
unfolding build_doc guarded_payment insert_guarded
create_guarded id now input s = elim (guarded_payment input.ticket_id s) [
  | some p ↦ (s, record { payment = p; reused = true })
  | none ↦
      (insert_guarded id now input s, record { payment = build_doc id now input; reused = false })
]

abbrev names : Option Guard → ℕ → Bool
names none id = false
names (some g) id = g.payment_id == id

-- `clearGuard`
unfoldable pub clear_guard : ℕ → ℕ → Store → Store
clear_guard ticket id s =
    if names (guard_of ticket s) id
    then record s { guards = delete_row guard_ticket ticket s.guards }
    else s

-- `findByTicketId`
unfoldable pub find_by_ticket : ℕ → List Payment → List Payment
find_by_ticket ticket [] = []
find_by_ticket ticket (p ∷ rows) =
    let rest = find_by_ticket ticket rows in if p.ticket_id == ticket then p ∷ rest else rest

abbrev has_ref : ℕ → Payment → Bool
has_ref ref p = elim p.qr_ref [ none ↦ false | some r ↦ r == ref ]

-- `findByQrRef`
unfoldable pub find_by_qr_ref : ℕ → Store → Option Payment
find_by_qr_ref ref s = find (has_ref ref) s.payments

-- `update`
unfoldable pub update : ℕ → (Payment → Payment) → Store → Store
update id f s = record s { payments = update_row payment_id id f s.payments }

-- `updateStatus`, which reads the payment again.
unfoldable pub update_status :
    ℕ → PaymentStatus → (Payment → Payment) → Store → Store × Option Payment
unfolding update
update_status id status fields s =
    let after = update id (λ p. record (fields p) { status = status }) s in
    (after, find_payment id after)

abbrev was : PaymentStatus → Option Payment → Bool
was from none = false
was from (some p) = same_status p.status from

-- `updateStatusWhen`
unfoldable pub update_status_when :
    ℕ → PaymentStatus → PaymentStatus → (Payment → Payment) → Store → Store × Option Payment
unfolding update_status
update_status_when id from status fields s =
    if was from (find_payment id s) then update_status id status fields s else (s, none)
