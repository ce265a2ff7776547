-- ===== src/StateMachine/Edges.antt =====
-- The transition diagram of app/state_machine.py as a relation, and that the code decides it.
use lynxpay.Prelude.{
  ◌≡◌, refl, ◌↔◌, ◌⊎◌, inl, inr, true, arith, Bool-cases, ok, err, invalid_transition, Error,
}
use lynxpay.Model.{PaymentStatus, Payment}
use lynxpay.StateMachine.{may_move, transition_payment}

infix 40 ◌⟶◌
-- One edge for each legal change of state.
pub data ◌⟶◌ : PaymentStatus → PaymentStatus → Type 0 where
  start : PaymentStatus.created ⟶ PaymentStatus.pending
  prompt : PaymentStatus.pending ⟶ PaymentStatus.stk_sent
  refuse : PaymentStatus.pending ⟶ PaymentStatus.failed
  lose : PaymentStatus.pending ⟶ PaymentStatus.unknown
  pay : PaymentStatus.stk_sent ⟶ PaymentStatus.success
  decline : PaymentStatus.stk_sent ⟶ PaymentStatus.failed
  expire : PaymentStatus.stk_sent ⟶ PaymentStatus.timeout
  doubt : PaymentStatus.stk_sent ⟶ PaymentStatus.unknown
  confirm : PaymentStatus.unknown ⟶ PaymentStatus.success
  deny : PaymentStatus.unknown ⟶ PaymentStatus.failed
  reverse : PaymentStatus.success ⟶ PaymentStatus.reversed

pub ruleset edges =
    (start, prompt, refuse, lose, pay, decline, expire, doubt, confirm, deny, reverse)

pub may_move-edge : (s t : PaymentStatus) → may_move s t ≡ true → (s ≡ t) ⊎ (s ⟶ t)
may_move-edge s t h = grind (arith, edges)

pub edge-may_move : {s t : PaymentStatus} → s ⟶ t → may_move s t ≡ true
edge-may_move start = refl
edge-may_move prompt = refl
edge-may_move refuse = refl
edge-may_move lose = refl
edge-may_move pay = refl
edge-may_move decline = refl
edge-may_move expire = refl
edge-may_move doubt = refl
edge-may_move confirm = refl
edge-may_move deny = refl
edge-may_move reverse = refl

may_move_self : (s t : PaymentStatus) → s ≡ t → may_move s t ≡ true
may_move_self s t e = ground arith

pub may_move-of : (s t : PaymentStatus) → (s ≡ t) ⊎ (s ⟶ t) → may_move s t ≡ true
may_move-of s t (inl e) = may_move_self s t e
may_move-of s t (inr e) = edge-may_move e

transition_payment-ok :
    (p : Payment) (t : PaymentStatus)
    → transition_payment p t ≡ ok (record p { status = t }, p.status)
    → may_move p.status t ≡ true
unfolding transition_payment
transition_payment-ok p t h = elim (Bool-cases (may_move p.status t)) [ inl y ↦ y | inr n ↦ cc (n) ]

transition_payment-err :
    (p : Payment) (t : PaymentStatus)
    → ¬ (may_move p.status t ≡ true)
    → transition_payment p t ≡ err invalid_transition
unfolding transition_payment
transition_payment-err p t other = elim (Bool-cases (may_move p.status t)) [
  | inl y ↦ absurd (other y)
  | inr n ↦ rw n
]

ok-ne-err {ℓ} : {A : Type ℓ} {a : A} {e : Error} → ok a ≡ err e → ⊥
ok-ne-err e = cc

-- `transition_payment` succeeds exactly when the target is the current status or the diagram has
-- an edge to it, and then changes the status alone and returns the previous one; it raises
-- `InvalidTransition` exactly when there is no such edge and the target is another status.
pub transition_payment_edges :
    (p : Payment) (t : PaymentStatus)
    → (((p.status ≡ t) ⊎ (p.status ⟶ t))
        ↔ (transition_payment p t ≡ ok (record p { status = t }, p.status)))
      × (¬ ((p.status ≡ t) ⊎ (p.status ⟶ t)) ↔ (transition_payment p t ≡ err invalid_transition))
unfolding transition_payment
transition_payment_edges p t = (
  (λ h. rw (may_move-of p.status t h), λ h. may_move-edge p.status t (transition_payment-ok p t h)),
  (
    λ other. transition_payment-err p t (λ y. other (may_move-edge p.status t y)),
    λ e edge. ok-ne-err (rw (may_move-of p.status t edge) at e),
  ),
)
