-- ===== src/PaymentStatus.antt =====
-- constants/payments.ts: the statuses and methods of a payment.
use roadassistapp_be.Base.{Bool, true, false}

-- PAYMENT_STATUS
pub data PaymentStatus : Type 0 where
  pending held confirmed refunded partial disputed cancelled : PaymentStatus

-- PAYMENT_METHOD
pub data PaymentMethod : Type 0 where
  cash sepay : PaymentMethod

-- PAYMENT_ACTIVE_STATUSES
abbrev pub is_active : PaymentStatus → Bool
is_active pending = true
is_active held = true
is_active confirmed = true
is_active partial = true
is_active _ = false

-- HELD, CONFIRMED or PARTIAL: PAYMENT_RECEIVED_STATUSES, and REFUNDABLE_STATUSES of
-- service/refundService.ts.
abbrev pub is_received : PaymentStatus → Bool
is_received held = true
is_received confirmed = true
is_received partial = true
is_received _ = false

abbrev pub is_pending : PaymentStatus → Bool
is_pending pending = true
is_pending _ = false

abbrev pub is_cash : PaymentMethod → Bool
is_cash cash = true
is_cash sepay = false

-- `a === b` on methods.
abbrev pub same_method : PaymentMethod → PaymentMethod → Bool
same_method cash cash = true
same_method sepay sepay = true
same_method _ _ = false

-- `a === b` on statuses.
abbrev pub same_status : PaymentStatus → PaymentStatus → Bool
same_status pending pending = true
same_status held held = true
same_status confirmed confirmed = true
same_status refunded refunded = true
same_status partial partial = true
same_status disputed disputed = true
same_status cancelled cancelled = true
same_status _ _ = false
