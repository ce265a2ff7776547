-- ===== src/Service/Log.antt =====
-- `audit` and `ledger` of app/service.py, and the writes of single rows.
use lynxpay.Prelude.{ℕ, Option, some, ◌∷◌, update, ◌==◌}
use lynxpay.Model.{
  PaymentStatus, EventType, Action, Payment, PaymentAttempt, MpesaCallback, Session,
}

unfoldable pub audit : ℕ → Option ℕ → Action → ℕ → Session → Session
audit organization_id merchant_id action entity_id db = record db {
  audits =
      record {
        organization_id = organization_id;
        merchant_account_id = merchant_id;
        action = action;
        entity_id = entity_id;
      }
      ∷ db.audits;
}

-- The audit entry of a payment's own rows.
abbrev pub audit_payment : Payment → Action → ℕ → Session → Session
audit_payment payment = audit payment.organization_id (some payment.merchant_account_id)

unfoldable pub ledger : Payment → EventType → Option PaymentStatus → Session → Session
ledger payment event_type status_from db = record db {
  ledger =
      record {
        payment_id = payment.id;
        event_type = event_type;
        status_from = status_from;
        status_to = payment.status;
        amount = payment.amount;
        currency = payment.currency;
      }
      ∷ db.ledger;
}

-- The flush of a changed payment.
unfoldable pub save_payment : Payment → Session → Session
save_payment payment db = record db {
  payments = update (λ row. row.id == payment.id) (λ row. payment) db.payments;
}

-- The flush of a changed attempt.
unfoldable pub save_attempt : PaymentAttempt → Session → Session
save_attempt attempt db = record db {
  attempts = update (λ row. row.id == attempt.id) (λ row. attempt) db.attempts;
}

-- The flush of a changed callback.
unfoldable pub save_callback : MpesaCallback → Session → Session
save_callback callback db = record db {
  callbacks = update (λ row. row.id == callback.id) (λ row. callback) db.callbacks;
}
