-- ===== src/Invoices.antt =====
-- app/routers/invoices.py: the payment of a public invoice, and voiding one. Creation, listings and
-- views are not modelled.
mod Pay
pub mod Ledger
pub mod Guards
unfoldable pub use Pay.*
