-- ===== src/Bill.antt =====
-- What a ticket costs: the payable amount, the deposit that is credited, the lines that explain the
-- amount, and the totals of a bill (service/billService.ts, service/bill, service/paymentService.ts).
pub mod Amount
pub mod Deposit
pub mod Snapshot
pub mod Breakdown
pub mod Total
