-- ===== src/Examples/Samples.antt =====
-- Tickets for the examples.
use roadassistapp_be.Base.{true, false, none, some, []}
use roadassistapp_be.Status.{arrived, cancelled, resolved, tow, sos, walk_in}
use roadassistapp_be.Ticket.{Ticket, TowFare, solo_bike, confirmed}

-- A tow by motorbike at night, priced at 4.2 km with a prior tower's 30,000.
abbrev pub night_fare : TowFare
night_fare = record {
  estimate = some 243000;
  ceiling = some 267000;
  final = some 243000;
  base_fee = some 150000;
  per_km_fee = some 10000;
  included_m = some 3000;
  billable_hkm = some 120;
  deadhead_m = some 1800;
  loaded_m = some 4200;
  night = true;
  night_multiplier = some 1500;
  fare_class = some solo_bike;
  partial = false;
  waiting_fee = some 15000;
}

abbrev pub tow_ticket : Ticket
tow_ticket = record {
  id = 7;
  user_id = 1;
  ticket_type = tow;
  status = resolved;
  assigned_shop_id = some 20;
  provider_id = none;
  destination_shop_id = none;
  assigned_uid = some 2;
  cancelled_by = none;
  shop_quoted_amount = none;
  invoice_amount = none;
  invoice_approval = none;
  final_amount = none;
  mobile_call_out_fee = none;
  mobile_travel_fee = none;
  mobile_travel_hkm = none;
  mobile_travel_rate = none;
  mobile_fee_history = [];
  tow_fee_history = [];
  tow_fare = some night_fare;
  tow_actual_m = none;
  vehicle_class = some solo_bike;
  waiting = none;
  deposit_amount = none;
  deposit_status = none;
  warranty_of_ticket_id = none;
  warranty_claim_id = none;
  dispute_hold = false;
  loaded_at = some 1000;
}

-- A mobile shop came 3.4 km and set a repair fee of 300,000.
abbrev pub sos_ticket : Ticket
sos_ticket = record tow_ticket {
  ticket_type = sos;
  tow_fare = none;
  mobile_call_out_fee = some 50000;
  mobile_travel_fee = some 17000;
  final_amount = some 300000;
}

-- The rider cancelled that ticket while the fee was on file.
abbrev pub cancelled_sos : Ticket
cancelled_sos = record sos_ticket { status = cancelled; cancelled_by = some 1 }

-- A walk-in with a quote of 500,000, of which 100,000 were paid as a deposit.
abbrev pub deposit_ticket : Ticket
deposit_ticket = record tow_ticket {
  ticket_type = walk_in;
  status = arrived;
  tow_fare = none;
  shop_quoted_amount = some 500000;
  deposit_amount = some 100000;
  deposit_status = some confirmed;
}
