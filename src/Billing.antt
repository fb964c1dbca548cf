-- ===== src/Billing.antt =====
-- apps/api/src/billing: fees, what a registration has paid, refunds and captures.
pub mod PaidState
pub mod Fees
pub mod Refunds
pub mod Sweep
pub mod RefundEvents
pub mod Capture
pub mod Checkout
pub mod Provider
pub mod Registrations
mod Tests
