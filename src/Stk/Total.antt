-- ===== src/Stk/Total.antt =====
-- A submission ends: whatever the provider answers, the payment leaves `pending` by a move that the
-- state machine allows, and the ledger has it.
use lynxpay.Prelude.{
  Ensures, refl, true, ◌&&◌, http, err, if_both, Result, Bool, ℕ, ◌≡◌, ◌⊎◌, none, ok, arith, truthy,
  ◌≢◌,
}
use lynxpay.Model.{
  Session, DarajaCredential, PaymentStatus, ReviewStatus, Acceptance, MerchantAccount, Payment,
  Settings,
}
use lynxpay.StateMachine.{transition_payment}
use lynxpay.Service.{
  save_attempt, audit, ledger, transition_and_record, record_transition, queue_webhooks,
}
use lynxpay.Service.Coupling.{IsCoupled, Shows, Held, IsCoupled-same, save-IsCoupled}
use lynxpay.Service.Recorded.{Recorded, Held-Recorded}
use lynxpay.Stk.{
  commit_stk, writes_checkout, heard_stk, finish_stk, after_conflict, resolve_conflict,
  submit_stk_attempt, StkAnswer, StkWork, on_not_sent, on_uncertain, on_response, on_accepted,
  record_answer,
}

-- What the payment is after an answer: accepted with a request to ask about and a first check due,
-- refused for good, or in doubt and up for review.
abbrev pub IsAnswered : Payment → Type 0
IsAnswered p =
    ((p.status ≡ PaymentStatus.stk_sent)
      × (p.provider_acceptance_state ≡ Acceptance.accepted)
      × (truthy p.checkout_request_id ≡ true)
      × (p.next_reconciliation_at ≢ none))
    ⊎ ((p.status ≡ PaymentStatus.failed) × (p.provider_acceptance_state ≡ Acceptance.rejected))
    ⊎ ((p.status ≡ PaymentStatus.unknown)
        × (p.provider_acceptance_state ≡ Acceptance.uncertain)
        × (p.review_status ≡ ReviewStatus.needs_review))

module _ (settings : Settings) (now : ℕ) (merchant : MerchantAccount) where
  answer-Recorded :
      (answer : StkAnswer) (w w' : StkWork)
      → record_answer settings now merchant answer w ≡ ok w'
      → Recorded w.db w.payment w'.db w'.payment
  unfolding record_answer on_not_sent on_uncertain on_response on_accepted transition_and_record
      transition_payment record_transition ledger audit queue_webhooks
  answer-Recorded answer w w' h = ground arith

  conflict-Recorded :
      (w w' : StkWork)
      → resolve_conflict settings now w ≡ ok w'
      → Recorded w.db w.payment w'.db w'.payment
  unfolding resolve_conflict transition_and_record transition_payment record_transition ledger audit
  conflict-Recorded w w' h = ground arith

-- A submission returns an answered payment; it refuses where the checkout id is taken, with 409.
abbrev pub Ended : Bool → Result Payment → Type 0
Ended taken (ok p) = IsAnswered p
Ended taken (err e) = (taken ≡ true) × (e ≡ http 409)

-- A row that the ledger shows can be taken up.
pub Held-self : {db : Session} (p : Payment) → IsCoupled db → Shows db.ledger p → Held db p db p
Held-self p c h = record {
  same_key = refl;
  table = refl;
  linked = c.linked;
  shown = h;
  others = λ k n. refl;
}

after_conflict-IsCoupled :
    (db : Session) (p : Payment) (r : Result StkWork)
    → IsCoupled db
    → Ensures (λ w'. Held db p w'.db w'.payment) r
    → IsCoupled (after_conflict db r).1
unfolding after_conflict
after_conflict-IsCoupled db p (err e) c h = c
after_conflict-IsCoupled db p (ok w) c h = save-IsCoupled c h

finish_stk-IsCoupled :
    (settings : Settings) (now : ℕ) (taken : Bool) (answer : StkAnswer) (w : StkWork)
    (r : Result StkWork)
    → IsCoupled w.db
    → Ensures (λ w'. Held w.db w.payment w'.db w'.payment) r
    → Ensures (λ w'. Held w.db w.payment w'.db w'.payment) (resolve_conflict settings now w)
    → IsCoupled (finish_stk settings now taken answer w r).1
unfolding finish_stk commit_stk save_attempt
finish_stk-IsCoupled settings now taken answer w (err e) c h k = c
finish_stk-IsCoupled settings now taken answer w (ok done) c h k =
    if_both (λ (r : Result Payment × Session). IsCoupled r.1) (writes_checkout answer && taken)
      (after_conflict-IsCoupled w.db w.payment _ c k)
      (IsCoupled-same (save-IsCoupled c h) refl refl)

-- What a recorded move does to a row that is held, whatever the work returns.
pub Ensures-Held :
    (w : StkWork) (r : Result StkWork)
    → Held w.db w.payment w.db w.payment
    → ((w' : StkWork) → r ≡ ok w' → Recorded w.db w.payment w'.db w'.payment)
    → Ensures (λ w'. Held w.db w.payment w'.db w'.payment) r
Ensures-Held w (ok w') h k = Held-Recorded h (k w' refl)
Ensures-Held w (err e) h k = tt

-- A submission keeps the ledger linked and showing the status of every payment, its commit refused
-- or not.
pub submit-IsCoupled :
    (settings : Settings) (now : ℕ) (merchant : MerchantAccount) (credential : DarajaCredential)
    (taken : Bool) (answer : StkAnswer) (w : StkWork)
    → IsCoupled w.db
    → Shows w.db.ledger w.payment
    → IsCoupled (submit_stk_attempt settings now merchant credential taken answer w).1
unfolding submit_stk_attempt
submit-IsCoupled settings now merchant credential taken answer w c shown =
    let held = Held-self w.payment c shown in
    finish_stk-IsCoupled settings now taken _ w _ c
      (Ensures-Held w _ held
        (answer-Recorded settings now merchant (heard_stk credential answer) w))
      (Ensures-Held w _ held (conflict-Recorded settings now merchant w))
