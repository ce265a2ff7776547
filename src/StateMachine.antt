-- ===== src/StateMachine.antt =====
-- app/state_machine.py: the payment states that may follow one another, and explicit retries.
pub mod Edges
pub mod Reach
use lynxpay.Prelude.{
  Bool, true, false, List, [], ◌∷◌, any, Result, ok, err, Error, invalid_transition, if◌then◌else◌,
}
use lynxpay.Model.{PaymentStatus, same_status, Payment}

-- `RETRYABLE_STATES`
abbrev pub retryable_states : List PaymentStatus
retryable_states = PaymentStatus.failed ∷ PaymentStatus.timeout ∷ PaymentStatus.unknown ∷ []

-- `ALLOWED_TRANSITIONS`
abbrev pub allowed_transitions : PaymentStatus → List PaymentStatus
allowed_transitions PaymentStatus.created = PaymentStatus.pending ∷ []
allowed_transitions PaymentStatus.pending =
    PaymentStatus.stk_sent ∷ PaymentStatus.failed ∷ PaymentStatus.unknown ∷ []
allowed_transitions PaymentStatus.stk_sent =
    PaymentStatus.success ∷ PaymentStatus.failed ∷ PaymentStatus.timeout ∷ PaymentStatus.unknown
    ∷ []
allowed_transitions PaymentStatus.unknown = PaymentStatus.success ∷ PaymentStatus.failed ∷ []
allowed_transitions PaymentStatus.success = PaymentStatus.reversed ∷ []
allowed_transitions PaymentStatus.failed = []
allowed_transitions PaymentStatus.timeout = []
allowed_transitions PaymentStatus.cancelled = []
allowed_transitions PaymentStatus.reversed = []

-- Whether `ensure_transition` passes without `InvalidPaymentTransitionError`.
abbrev pub may_move : PaymentStatus → PaymentStatus → Bool
may_move current target =
    if same_status current target
    then true
    else any (same_status target) (allowed_transitions current)

unfoldable pub ensure_transition : PaymentStatus → PaymentStatus → Result (Unit {0})
ensure_transition current target = if may_move current target then ok tt else err invalid_transition

-- The payment moved, with its previous status, or the error.
unfoldable pub transition_payment : Payment → PaymentStatus → Result (Payment × PaymentStatus)
transition_payment payment target =
    if may_move payment.status target
    then ok (record payment { status = target }, payment.status)
    else err invalid_transition

unfoldable pub begin_payment_retry : Payment → Result (Payment × PaymentStatus)
begin_payment_retry payment =
    if any (same_status payment.status) retryable_states
    then ok (record payment { status = PaymentStatus.pending }, payment.status)
    else err invalid_transition
