-- ===== src/Stk/Submit.antt =====
-- `_submit_stk_attempt`: one persisted attempt is sent to the provider, and what is known of its
-- acceptance is recorded. The provider's answer is a parameter; between the commit before the
-- request and the answer no other handler's work on the payment is modelled.
use lynxpay.Prelude.{
  false, ◌&&◌, ℕ, ◌+◌, ◌&&◌, Bool, true, false, not, truthy, text_eq, String, Option, none, some,
  Result, ok, err, http, if◌then◌else◌,
}
use lynxpay.Model.{
  PaymentStatus, same_status, ReceiptStatus, ReviewStatus, ReviewReason, Acceptance, AttemptStatus,
  EventType, Action, MerchantAccount, DarajaCredential, Payment, PaymentAttempt, Session, Settings,
}
use lynxpay.Service.{
  decrypted_secrets, audit, save_payment, save_attempt, transition_and_record, queue_webhooks,
}

-- What the response body carries.
pub record StkResponse : Type 0 where
  pub merchant_request_id : Option String
  pub checkout_request_id : Option String
  pub response_code : String
  pub response_description : Option String

-- The end of `client.stk_push`: `DarajaRequestNotSentError`, any other exception, or a response.
pub data StkAnswer : Type 0 where
  not_sent uncertain : StkAnswer
  answered : StkResponse → StkAnswer

-- The rows under way.
pub record StkWork : Type 0 where
  pub db : Session
  pub payment : Payment
  pub attempt : PaymentAttempt

abbrev refused : Payment → Payment
refused payment = record payment {
  provider_acceptance_state = Acceptance.rejected;
  receipt_status = ReceiptStatus.not_applicable;
  review_status = ReviewStatus.none;
  review_reason = none;
}

abbrev pub doubtful : ReviewReason → Payment → Payment
doubtful reason payment = record payment {
  provider_acceptance_state = Acceptance.uncertain;
  review_status = ReviewStatus.needs_review;
  review_reason = some reason;
}

-- `payment.failed`, with the text and the time.
fail_payment : Settings → ℕ → Option String → Option String → StkWork → Result StkWork
fail_payment settings now code description w =
    elim (transition_and_record now PaymentStatus.failed (EventType.payment PaymentStatus.failed)
      w.db (refused w.payment)) [
        | err e ↦ err e
        | ok (db, moved) ↦
            let payment : Payment = record moved {
              result_code = code;
              result_description = description;
              failed_at = some now;
            } in
            ok (record w {
              db = queue_webhooks settings now payment (EventType.payment PaymentStatus.failed) db;
              payment = payment;
            })
      ]

-- `payment.unknown`, with the reason for a review.
doubt_payment : Settings → ℕ → ReviewReason → Option String → StkWork → Result StkWork
doubt_payment settings now reason description w =
    elim (transition_and_record now PaymentStatus.unknown (EventType.payment PaymentStatus.unknown)
      w.db (doubtful reason w.payment)) [
        | err e ↦ err e
        | ok (db, moved) ↦
            let payment : Payment = record moved { result_description = description } in
            ok (record w {
              db = queue_webhooks settings now payment (EventType.payment PaymentStatus.unknown) db;
              payment = payment;
            })
      ]

abbrev audit_failed : MerchantAccount → StkWork → StkWork
audit_failed merchant w = record w {
  db =
      audit w.payment.organization_id (some merchant.id) Action.stk_push_request_failed w.attempt.id
        w.db;
}

not_sent_done : MerchantAccount → Result StkWork → Result StkWork
not_sent_done merchant (err e) = err e
not_sent_done merchant (ok w) = ok (audit_failed merchant w)

-- `except DarajaRequestNotSentError`
unfoldable pub on_not_sent : Settings → ℕ → MerchantAccount → StkWork → Result StkWork
unfolding fail_payment not_sent_done
on_not_sent settings now merchant w =
    let text = some "Daraja STK request was not submitted" in
    not_sent_done merchant (
      fail_payment settings now w.payment.result_code text (record w {
        attempt = record (w.attempt) {
          status = AttemptStatus.not_sent;
          provider_responded_at = some now;
          response_description = text;
        };
      }))

-- `except Exception`
unfoldable pub on_uncertain : Settings → ℕ → StkWork → Result StkWork
unfolding doubt_payment
on_uncertain settings now w =
    let text = some "Daraja acceptance could not be verified" in
    doubt_payment settings now ReviewReason.provider_acceptance_uncertain text (record w {
      attempt = record (w.attempt) {
        status = AttemptStatus.uncertain;
        provider_responded_at = some now;
        response_description = text;
      };
    })

-- The columns of the attempt that the response fills.
abbrev answered_attempt : ℕ → StkResponse → AttemptStatus → PaymentAttempt → PaymentAttempt
answered_attempt now response status attempt = record attempt {
  status = status;
  provider_responded_at = some now;
  merchant_request_id = response.merchant_request_id;
  checkout_request_id = response.checkout_request_id;
  response_code = some response.response_code;
  response_description = response.response_description;
}

-- The columns of an accepted payment.
abbrev accepted_payment : Settings → ℕ → StkResponse → Payment → Payment
accepted_payment settings now response payment = record payment {
  checkout_request_id = response.checkout_request_id;
  merchant_request_id = response.merchant_request_id;
  provider_acceptance_state = Acceptance.accepted;
  receipt_status = ReceiptStatus.missing;
  review_status = ReviewStatus.none;
  review_reason = none;
  next_reconciliation_at = some (now + settings.reconciliation_initial_delay_seconds);
}

unfoldable pub on_accepted : Settings → ℕ → MerchantAccount → StkResponse → StkWork → Result StkWork
on_accepted settings now merchant response w =
    elim (transition_and_record now PaymentStatus.stk_sent
      (EventType.payment PaymentStatus.stk_sent) w.db
      (accepted_payment settings now response w.payment)) [
        | err e ↦ err e
        | ok (db, moved) ↦ ok (record {
          db = queue_webhooks settings now moved (EventType.payment PaymentStatus.stk_sent) (
              audit moved.organization_id (some merchant.id) Action.stk_push_initiated w.attempt.id
                db);
          payment = moved;
          attempt = answered_attempt now response AttemptStatus.accepted w.attempt;
        })
      ]

-- The checks of a response, in order.
unfoldable pub on_response : Settings → ℕ → MerchantAccount → StkResponse → StkWork → Result StkWork
unfolding fail_payment doubt_payment
on_response settings now merchant response w =
    if not (text_eq response.response_code "0")
    then fail_payment settings now (some response.response_code) response.response_description
        (record w { attempt = answered_attempt now response AttemptStatus.rejected w.attempt })
    else if not (truthy response.checkout_request_id)
    then doubt_payment settings now ReviewReason.accepted_without_checkout_request_id
        (some "Daraja accepted the request without a CheckoutRequestID")
        (record w { attempt = answered_attempt now response AttemptStatus.uncertain w.attempt })
    else on_accepted settings now merchant response w

unfoldable pub record_answer : Settings → ℕ → MerchantAccount → StkAnswer → StkWork → Result StkWork
record_answer settings now merchant not_sent w = on_not_sent settings now merchant w
record_answer settings now merchant uncertain w = on_uncertain settings now w
record_answer settings now merchant (answered response) w =
    on_response settings now merchant response w

-- The commit of the rows under way.
unfoldable pub commit_stk : StkWork → Session
commit_stk w = save_attempt w.attempt (save_payment w.payment w.db)

-- `except IntegrityError` of the last commit: the row as the commit before left it.
unfoldable pub resolve_conflict : Settings → ℕ → StkWork → Result StkWork
unfolding doubt_payment
resolve_conflict settings now w =
    let locked = doubtful ReviewReason.checkout_request_id_conflict w.payment in
    let noted = λ (v : StkWork). record v {
      db =
          audit v.payment.organization_id (some v.payment.merchant_account_id)
            Action.checkout_request_id_conflict v.payment.id v.db;
    } in
    elim (same_status w.payment.status PaymentStatus.pending) [
      | false ↦ ok (noted (record w { payment = locked }))
      | true ↦
          elim (transition_and_record now PaymentStatus.unknown
            (EventType.payment PaymentStatus.unknown) w.db locked) [
              | err e ↦ err e
              | ok (db, moved) ↦ ok (noted (record w { db = db; payment = moved }))
            ]
    ]

-- Whether the commit writes a `checkout_request_id`, which a unique index guards.
abbrev pub writes_checkout : StkAnswer → Bool
writes_checkout not_sent = false
writes_checkout uncertain = false
writes_checkout (answered response) =
    text_eq response.response_code "0" && truthy response.checkout_request_id

unfoldable pub after_conflict : Session → Result StkWork → Result Payment × Session
after_conflict db (err e) = (err e, db)
after_conflict db (ok w) = (err (http 409), save_payment w.payment w.db)

-- The end of the handler: `taken` says whether the index already has the `checkout_request_id`.
unfoldable pub finish_stk :
    Settings → ℕ → Bool → StkAnswer → StkWork → Result StkWork → Result Payment × Session
finish_stk settings now taken answer w (err e) = (err e, w.db)
finish_stk settings now taken answer w (ok done) =
    if writes_checkout answer && taken
    then after_conflict w.db (resolve_conflict settings now w)
    else (ok done.payment, commit_stk done)

-- Secrets that do not decrypt raise inside the same `try` as the request.
abbrev pub heard_stk : DarajaCredential → StkAnswer → StkAnswer
heard_stk credential answer = elim (decrypted_secrets credential) [
  | err e ↦ StkAnswer.uncertain
  | ok _ ↦ answer
]

-- The whole of `_submit_stk_attempt` on the rows that the commit before has stored.
unfoldable pub submit_stk_attempt :
    Settings
    → ℕ
    → MerchantAccount
    → DarajaCredential
    → Bool
    → StkAnswer
    → StkWork
    → Result Payment × Session
submit_stk_attempt settings now merchant credential taken answer w =
    let heard = heard_stk credential answer in
    finish_stk settings now taken heard w (record_answer settings now merchant heard w)
