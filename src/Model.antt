-- ===== src/Model.antt =====
-- The tables of app/models.py that the payment paths read and write, and the session over them.
mod Status
mod Payments
mod Records
mod Reversal
mod Database
mod Table
pub use Status.*
pub use Payments.*
pub use Records.*
pub use Reversal.*
pub use Database.*
pub use Table.*
