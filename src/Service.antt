-- ===== src/Service.antt =====
-- app/service.py: the domain operations that the routes and the workers share. Every operation takes
-- the session as it stands, and a payment row beside it that the caller holds and saves at the end.
-- The audit log keeps the columns that identify what was done; actor, address and metadata are left
-- out.
mod Log
mod Credentials
mod Transition
mod Webhooks
mod Evidence
pub mod Coupling
pub mod Invoices
pub mod Recorded
pub mod Matching
unfoldable pub use Log.*
unfoldable pub use Credentials.*
unfoldable pub use Transition.*
unfoldable pub use Webhooks.*
unfoldable pub use Evidence.*
