-- ===== src/Stk.antt =====
-- app/routers/payments.py: payments created, submitted to the provider by STK push, and retried;
-- and the recovery of submissions that a crash cut off (app/maintenance.py).
mod Access
mod Submit
mod Create
mod Retry
mod Abandon
pub mod Total
pub mod Earlier
pub mod Guards
pub mod Replies
pub mod Ledger
pub mod Recovery
unfoldable pub use Access.*
unfoldable pub use Submit.*
unfoldable pub use Create.*
unfoldable pub use Retry.*
unfoldable pub use Abandon.*
