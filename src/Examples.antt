-- ===== src/Examples.antt =====
-- Each theorem with hypotheses at a concrete input, by component.
mod Samples
mod Dispatch
mod Bills
mod Flags
mod Fares
mod Payments
mod Commissions
mod Refunds
mod Payouts
mod Hours
mod Handler
mod Bookings
mod Subscriptions
