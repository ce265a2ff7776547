-- ===== src/Reconciliation.antt =====
-- app/reconciliation.py: claims of payments whose outcome is open, and the status query in its two
-- transactions, with the provider's answer in between.
mod Claim
mod Query
mod Settle
mod Finish
pub mod Total
pub mod Ledger
pub mod Safety
pub mod Claims
unfoldable pub use Claim.*
unfoldable pub use Query.*
unfoldable pub use Settle.*
unfoldable pub use Finish.*
