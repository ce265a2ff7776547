-- ===== src/Examples.antt =====
-- Concrete rows, and the theorems at them.
mod Data
mod Callback
mod Query
mod Push
mod Rules
mod Reversal
mod Reversing
mod Billing
mod Delivery
