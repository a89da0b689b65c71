-- ===== src/Ticket.antt =====
-- The dispatch ticket: the fields of repository/dispatchRepository.ts that the modelled handlers
-- read or write. An id that is null, missing or the empty text is `none`, since the source tests
-- all of these by `typeof x === "string" && x !== ""`. A field whose type is `Option ℕ` is read by
-- the source as `typeof x === "number"`. Amounts are whole VND, distances are metres or hundredths
-- of a kilometre as a field's name says, multipliers are thousandths, times are milliseconds.
use roadassistapp_be.Base.{ℕ, Bool, true, false, Option, none, some, List, ◌||◌, is_some}
use roadassistapp_be.Status.{TicketStatus, TicketType}

pub data DepositStatus : Type 0 where
  requested collected confirmed applied other : DepositStatus

pub data Approval : Type 0 where
  approval_pending approved approval_other : Approval

-- VEHICLE_CLASS
pub data VehicleClass : Type 0 where
  solo_bike car : VehicleClass

-- `towFare`
pub record TowFare : Type 0 where
  pub estimate : Option ℕ
  pub ceiling : Option ℕ
  pub final : Option ℕ
  pub base_fee : Option ℕ
  pub per_km_fee : Option ℕ
  pub included_m : Option ℕ
  pub billable_hkm : Option ℕ
  pub deadhead_m : Option ℕ
  pub loaded_m : Option ℕ
  pub night : Bool
  pub night_multiplier : Option ℕ
  pub fare_class : Option VehicleClass
  pub partial : Bool
  pub waiting_fee : Option ℕ

-- A row of `mobileFeeHistory`.
pub record MobileFee : Type 0 where
  pub call_out_fee : Option ℕ
  pub travel_fee : Option ℕ

pub record Ticket : Type 0 where
  pub id : ℕ
  pub user_id : ℕ
  pub ticket_type : TicketType
  pub status : TicketStatus
  pub assigned_shop_id : Option ℕ
  pub provider_id : Option ℕ
  pub destination_shop_id : Option ℕ
  pub assigned_uid : Option ℕ
  pub cancelled_by : Option ℕ
  pub shop_quoted_amount : Option ℕ
  pub invoice_amount : Option ℕ
  pub invoice_approval : Option Approval
  pub final_amount : Option ℕ
  pub mobile_call_out_fee : Option ℕ
  pub mobile_travel_fee : Option ℕ
  pub mobile_travel_hkm : Option ℕ
  pub mobile_travel_rate : Option ℕ
  pub mobile_fee_history : List MobileFee
  -- The `amount` of each row of `towFeeHistory`.
  pub tow_fee_history : List (Option ℕ)
  pub tow_fare : Option TowFare
  pub tow_actual_m : Option ℕ
  pub vehicle_class : Option VehicleClass
  -- `waiting.startedAt` and `waiting.endedAt`, once `waiting` is an object.
  pub waiting : Option (Option ℕ × Option ℕ)
  pub deposit_amount : Option ℕ
  pub deposit_status : Option DepositStatus
  pub warranty_of_ticket_id : Option ℕ
  pub warranty_claim_id : Option ℕ
  pub dispute_hold : Bool
  pub loaded_at : Option ℕ

-- `isWarrantyRework` of service/warrantyRework.ts.
abbrev pub is_warranty_rework : Ticket → Bool
is_warranty_rework t = is_some t.warranty_of_ticket_id || is_some t.warranty_claim_id

-- A deposit in one of these statuses counts towards the bill.
abbrev pub is_credited : Option DepositStatus → Bool
is_credited none = false
is_credited (some requested) = false
is_credited (some collected) = true
is_credited (some confirmed) = true
is_credited (some applied) = true
is_credited (some other) = false
