-- ===== src/StateMachine/Reach.antt =====
-- What any sequence of transitions and retries, refused ones included, can make of a payment.
use lynxpay.Prelude.{◌≡◌, ◌≢◌, ◌⊎◌, List, [], ◌∷◌, arith, Result, ok, err}
use lynxpay.Model.{PaymentStatus, Payment}
use lynxpay.StateMachine.{transition_payment, begin_payment_retry}

-- A request to the state machine.
pub data Op : Type 0 where
  move : PaymentStatus → Op
  retry : Op

-- The payment after a request; one that raises leaves it as it was.
abbrev after : Payment → Result (Payment × PaymentStatus) → Payment
after p (ok (p', _)) = p'
after p (err _) = p

pub attempt : Payment → Op → Payment
attempt p (move t) = after p (transition_payment p t)
attempt p retry = after p (begin_payment_retry p)

pub run : Payment → List Op → Payment
run p [] = p
run p (o ∷ os) = run (attempt p o) os

-- The customer's money has moved.
abbrev pub IsSettled : PaymentStatus → Type 0
IsSettled s = (s ≡ PaymentStatus.success) ⊎ (s ≡ PaymentStatus.reversed)

attempt-IsSettled : (p : Payment) (o : Op) → IsSettled p.status → IsSettled (attempt p o).status
unfolding attempt transition_payment begin_payment_retry
attempt-IsSettled p (move t) h = ground arith
attempt-IsSettled p retry h = ground arith

-- A payment that is a success or reversed stays one of the two, whatever is asked of it.
pub run-IsSettled : (p : Payment) (os : List Op) → IsSettled p.status → IsSettled (run p os).status
unfolding run
run-IsSettled p [] h = h
run-IsSettled p (o ∷ os) h = run-IsSettled (attempt p o) os (attempt-IsSettled p o h)

attempt-cancelled :
    (p : Payment) (o : Op)
    → p.status ≢ PaymentStatus.cancelled
    → (attempt p o).status ≢ PaymentStatus.cancelled
unfolding attempt transition_payment begin_payment_retry
attempt-cancelled p (move t) h = ground arith
attempt-cancelled p retry h = ground arith

-- No sequence of requests brings a payment that is not cancelled to `cancelled`.
run-ne-cancelled :
    (p : Payment) (os : List Op)
    → p.status ≢ PaymentStatus.cancelled
    → (run p os).status ≢ PaymentStatus.cancelled
unfolding run
run-ne-cancelled p [] h = h
run-ne-cancelled p (o ∷ os) h = run-ne-cancelled (attempt p o) os (attempt-cancelled p o h)

attempt-reversed :
    (p : Payment) (o : Op)
    → p.status ≡ PaymentStatus.reversed
    → (attempt p o).status ≡ PaymentStatus.reversed
unfolding attempt transition_payment begin_payment_retry
attempt-reversed p (move t) h = ground arith
attempt-reversed p retry h = ground arith

-- A reversed payment stays reversed.
run-reversed :
    (p : Payment) (os : List Op)
    → p.status ≡ PaymentStatus.reversed
    → (run p os).status ≡ PaymentStatus.reversed
unfolding run
run-reversed p [] h = h
run-reversed p (o ∷ os) h = run-reversed (attempt p o) os (attempt-reversed p o h)
