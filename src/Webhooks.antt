-- ===== src/Webhooks.antt =====
-- app/webhooks.py: the claims of due webhooks, and the delivery of a claimed one. URL validation,
-- signatures and HTTP are not modelled; what the receiver answers is a parameter.
mod Deliver
mod Claim
pub mod Outcomes
pub mod Claims
unfoldable pub use Deliver.*
unfoldable pub use Claim.*
