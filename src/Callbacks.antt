-- ===== src/Callbacks.antt =====
-- `receive_mpesa_callback` of app/routers/callbacks.py, in the steps of the handler: the raw
-- callback is stored, the callback is screened, looked up among its duplicates, applied to the
-- payment, and closed.
mod Receive
mod Duplicates
mod Apply
mod Outcome
mod Handler
pub mod Safety
pub mod Ledger
mod Lift
pub mod Replay
unfoldable pub use Receive.*
unfoldable pub use Duplicates.*
unfoldable pub use Apply.*
unfoldable pub use Outcome.*
unfoldable pub use Handler.*
