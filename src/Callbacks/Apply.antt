-- ===== src/Callbacks/Apply.antt =====
-- The `try` block of `receive_mpesa_callback`: what the callback does to its payment.
use lynxpay.Prelude.{
  ℕ, true, false, ◌&&◌, has_id, Option, none, some, List, [], ◌∷◌, select, Result, ok, err,
  multiple_results,
}
use lynxpay.Model.{
  PaymentStatus, same_status, SuccessSource, ReceiptStatus, ReviewStatus, ReviewReason, Acceptance,
  AttemptStatus, Processing, EventType, Action, MerchantAccount, Payment, PaymentAttempt,
  MpesaCallback, Session, Library,
}
use lynxpay.Service.{CallbackFields, callback_matches_payment, audit_payment, transition_and_record}
use lynxpay.Callbacks.Receive.{audit_callback}

-- The rows that the handler holds, and `event_type`.
pub record Work : Type 0 where
  pub db : Session
  pub payment : Payment
  pub attempt : Option PaymentAttempt
  pub callback : MpesaCallback
  pub event : Option EventType

-- `if matched_attempt: matched_attempt.status = status`
abbrev pub set_attempt : AttemptStatus → Option PaymentAttempt → Option PaymentAttempt
set_attempt status none = none
set_attempt status (some a) = some (record a { status = status })

abbrev set_processing : Processing → MpesaCallback → MpesaCallback
set_processing status callback = record callback { processing_status = status }

-- A conflict: the payment is flagged for review, the attempt and the callback are marked.
unfoldable pub conflict : MerchantAccount → ReviewReason → Action → Work → Work
conflict merchant reason action w = record w {
  db = audit_callback merchant action w.callback w.db;
  payment = record w.payment {
    review_status = ReviewStatus.needs_review;
    review_reason = some reason;
  };
  attempt = set_attempt AttemptStatus.conflict w.attempt;
  callback = set_processing Processing.conflict w.callback;
}

-- `.scalar()` of a query: SQLAlchemy raises where it finds more than one row.
abbrev pub scalar : List MpesaCallback → Result (Option ℕ)
scalar [] = ok none
scalar (row ∷ []) = ok (some row.id)
scalar (row ∷ _ ∷ _) = err multiple_results

-- A second callback with the receipt that the successful payment has.
unfoldable pub repeated_receipt : MerchantAccount → Work → Result Work
repeated_receipt merchant w =
    elim (scalar
      (select (λ row. has_id row.payment_id w.payment.id && row.processed) w.db.callbacks)) [
        | err e ↦ err e
        | ok original ↦ ok (record w {
          db = audit_callback merchant Action.duplicate_callback_detected w.callback w.db;
          callback = record w.callback {
            duplicate_of_callback_id = original;
            processing_status = Processing.duplicate;
          };
        })
      ]

verification_failed : MerchantAccount → Work → Work
verification_failed merchant w = record w {
  db = audit_callback merchant Action.callback_verification_failed w.callback w.db;
  callback = set_processing Processing.verification_failed w.callback;
}

-- The receipt for a payment whose success a status query had reported without one.
unfoldable pub enrich_success : Library → MerchantAccount → CallbackFields → Work → Work
unfolding verification_failed
enrich_success lib merchant fields w = elim (callback_matches_payment lib w.payment fields) [
  | some reason ↦ verification_failed merchant w
  | none ↦ record w {
    db = audit_payment w.payment Action.payment_success_evidence_enriched w.payment.id w.db;
    payment = record w.payment {
      mpesa_receipt_number = fields.mpesa_receipt_number;
      result_code = fields.result_code;
      result_description = fields.result_description;
      success_source = SuccessSource.callback;
      receipt_status = ReceiptStatus.enriched_later;
      review_status = ReviewStatus.resolved;
      review_reason = none;
      provider_acceptance_state = Acceptance.accepted;
    };
    attempt = set_attempt AttemptStatus.succeeded w.attempt;
    callback = set_processing Processing.processed_success w.callback;
  }
]

-- The columns that a verified success writes.
abbrev paid : ℕ → CallbackFields → Payment → Payment
paid now fields payment = record payment {
  mpesa_receipt_number = fields.mpesa_receipt_number;
  result_code = fields.result_code;
  result_description = fields.result_description;
  paid_at = some now;
  success_source = SuccessSource.callback;
  receipt_status = ReceiptStatus.present;
  review_status = ReviewStatus.none;
  review_reason = none;
  provider_acceptance_state = Acceptance.accepted;
}

-- A success callback that matches the payment.
unfoldable pub verified_success : ℕ → CallbackFields → Work → Result Work
verified_success now fields w =
    elim (transition_and_record now PaymentStatus.success (EventType.payment PaymentStatus.success)
      w.db w.payment) [
        | err e ↦ err e
        | ok (db, payment) ↦ ok (record w {
          db = db;
          payment = paid now fields payment;
          attempt = set_attempt AttemptStatus.succeeded w.attempt;
          callback = set_processing Processing.processed_success w.callback;
          event = some (EventType.payment PaymentStatus.success);
        })
      ]

-- `if payment.status == "stk_sent": …`
doubt : ℕ → Work → Result Work
doubt now w = elim (same_status w.payment.status PaymentStatus.stk_sent) [
  | false ↦ ok w
  | true ↦
      elim (transition_and_record now PaymentStatus.unknown
        (EventType.payment PaymentStatus.unknown) w.db w.payment) [
          | err e ↦ err e
          | ok (db, payment) ↦ ok (record w {
            db = db;
            payment = payment;
            event = some (EventType.payment PaymentStatus.unknown);
          })
        ]
]

-- A success callback that does not match the payment.
unfoldable pub unverified_success : ℕ → MerchantAccount → ReviewReason → Work → Result Work
unfolding doubt verification_failed
unverified_success now merchant reason w = elim (doubt now w) [
  | err e ↦ err e
  | ok moved ↦ ok (
      verification_failed merchant (record moved {
        payment = record moved.payment {
          review_status = ReviewStatus.needs_review;
          review_reason = some reason;
          provider_acceptance_state = Acceptance.accepted;
        };
      }))
]
