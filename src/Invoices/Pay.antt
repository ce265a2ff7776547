-- ===== src/Invoices/Pay.antt =====
-- `pay_public_invoice` and `void_invoice` of app/routers/invoices.py.
use lynxpay.Service.{
  save_payment, active_credential, ledger, audit, transition_and_record, is_paid, audit_payment,
}
use lynxpay.Model.{
  AttemptType, Acceptance, AttemptStatus, ReviewStatus, ReceiptStatus, EventType, PaymentAttempt,
  same_environment, DarajaCredential, SuccessSource, Action, Environment, Purpose, MerchantAccount,
  InvoiceStatus, Payment, Settings, PaymentStatus, Invoice, Session,
}
use lynxpay.Stk.{
  insert_attempt, submit_stk_attempt, new_attempt, is_active_merchant, StkWork, StkAnswer,
  Principal,
}
use lynxpay.Prelude.{
  ℕ, ◌+◌, Bool, true, false, ◌&&◌, ◌==◌, has_id, text_eq, any, String, Option, none, some, List,
  ◌∷◌, length, first, select, update, Result, ok, err, http, if◌then◌else◌,
}

-- What the code builds from texts: `f"{invoice_number}-{attempt}"`, and `request_fingerprint` of the
-- invoice's key, the phone number and the attempt.
pub record InvoiceTexts : Type 0 where
  pub reference : String → ℕ → String
  pub fingerprint : ℕ → List ℕ → ℕ → String

-- What the endpoint returns: the invoice that was paid before, or the payment of this request.
pub data InvoiceReply : Type 0 where
  already_paid : Invoice → InvoiceReply
  paying : Payment → InvoiceReply

-- `invoice.status in {"void", "expired"}`
abbrev pub is_closed : InvoiceStatus → Bool
is_closed InvoiceStatus.void = true
is_closed InvoiceStatus.expired = true
is_closed _ = false

-- `["created", "pending", "stk_sent", "unknown"]`
abbrev pub is_open : PaymentStatus → Bool
is_open PaymentStatus.created = true
is_open PaymentStatus.pending = true
is_open PaymentStatus.stk_sent = true
is_open PaymentStatus.unknown = true
is_open _ = false

-- The query `pending`.
abbrev pub pending_for : Invoice → Payment → Bool
pending_for invoice p = has_id p.invoice_id invoice.id && is_open p.status

-- `attempt_count + 1`
abbrev pub attempt_of : Invoice → Session → ℕ
attempt_of invoice db = length (select (λ p. has_id p.invoice_id invoice.id) db.payments) + 1

abbrev pub invoice_payment : InvoiceTexts → ℕ → ℕ → Invoice → List ℕ → ℕ → Payment
invoice_payment texts now key invoice phone attempt = record {
  id = key;
  organization_id = invoice.organization_id;
  merchant_account_id = invoice.merchant_account_id;
  external_reference = texts.reference invoice.invoice_number attempt;
  idempotency_key = none;
  idempotency_request_hash = some (texts.fingerprint invoice.id phone attempt);
  invoice_id = some invoice.id;
  customer_phone = phone;
  amount = invoice.amount;
  currency = invoice.currency;
  purpose = Purpose.payment;
  status = PaymentStatus.created;
  success_source = SuccessSource.unknown;
  receipt_status = ReceiptStatus.missing;
  review_status = ReviewStatus.none;
  review_reason = none;
  provider_acceptance_state = Acceptance.not_sent;
  checkout_request_id = none;
  merchant_request_id = none;
  mpesa_receipt_number = none;
  result_code = none;
  result_description = none;
  paid_at = none;
  failed_at = none;
  created_at = now;
  reconciliation_attempts = 0;
  last_reconciled_at = none;
  next_reconciliation_at = none;
  reconciliation_lease_owner = none;
  reconciliation_lease_expires_at = none;
}

-- The insert of the payment, its ledger entry and the audit entry of the invoice.
abbrev pub insert_invoice_payment : Invoice → Payment → Session → Session
insert_invoice_payment invoice payment db =
    audit_payment payment Action.invoice_payment_created invoice.id (
      ledger payment (EventType.payment PaymentStatus.created) none
        (record db { next_id = payment.id + 1; payments = payment ∷ db.payments }))

-- The flush of the pending payment, and its attempt.
unfoldable pub invoice_attempt : ℕ → Result (Session × Payment) → Result StkWork
invoice_attempt now (err e) = err e
invoice_attempt now (ok (db, payment)) =
    let attempt : PaymentAttempt =
      new_attempt db.next_id payment 1 AttemptStatus.submitting (some now) AttemptType.invoice in
    ok (record {
      db = insert_attempt attempt (save_payment payment db);
      payment = payment;
      attempt = attempt;
    })

-- Everything up to the commit before the submission.
unfoldable pub open_invoice_payment : InvoiceTexts → ℕ → Invoice → List ℕ → Session → Result StkWork
open_invoice_payment texts now invoice phone db =
    let payment : Payment =
      invoice_payment texts now db.next_id invoice phone (attempt_of invoice db) in
    invoice_attempt now (
      transition_and_record now PaymentStatus.pending (EventType.payment PaymentStatus.pending)
        (insert_invoice_payment invoice payment db) payment)

unfoldable pub as_invoice_reply : Result Payment × Session → Result InvoiceReply × Session
as_invoice_reply (ok payment, db) = (ok (InvoiceReply.paying payment), db)
as_invoice_reply (err e, db) = (err e, db)

unfoldable pub send_invoice_payment :
    Settings
    → ℕ
    → MerchantAccount
    → DarajaCredential
    → Bool
    → StkAnswer
    → Session
    → Result StkWork
    → Result InvoiceReply × Session
send_invoice_payment settings now merchant credential taken answer db (err e) = (err e, db)
send_invoice_payment settings now merchant credential taken answer db (ok w) =
    as_invoice_reply (submit_stk_attempt settings now merchant credential taken answer w)

-- One request: whether the insert meets a unique index, whether the checkout id is taken by then, the
-- provider's answer, and the phone number.
pub record InvoicePay : Type 0 where
  pub raced : Bool
  pub taken : Bool
  pub answer : StkAnswer
  pub phone_number : List ℕ

-- `if pending: …`
unfoldable pub pay_unless_pending :
    InvoiceTexts
    → Settings
    → ℕ
    → Invoice
    → InvoicePay
    → Session
    → MerchantAccount
    → DarajaCredential
    → Option Payment
    → Result InvoiceReply × Session
pay_unless_pending texts settings now invoice request db merchant credential (some pending) =
    (err (http 409), db)
pay_unless_pending texts settings now invoice request db merchant credential none =
    if request.raced
    then (err (http 409), db)
    else send_invoice_payment settings now merchant credential request.taken request.answer db
        (open_invoice_payment texts now invoice request.phone_number db)

unfoldable pub pay_with :
    InvoiceTexts
    → Settings
    → ℕ
    → Invoice
    → InvoicePay
    → Session
    → MerchantAccount
    → Result DarajaCredential
    → Result InvoiceReply × Session
pay_with texts settings now invoice request db merchant (err e) = (err e, db)
pay_with texts settings now invoice request db merchant (ok credential) =
    pay_unless_pending texts settings now invoice request db merchant credential
      (first (pending_for invoice) db.payments)

-- `invoice.merchant`
unfoldable pub pay_to :
    InvoiceTexts
    → Settings
    → ℕ
    → Invoice
    → InvoicePay
    → Session
    → Option MerchantAccount
    → Result InvoiceReply × Session
pay_to texts settings now invoice request db none = (err (http 409), db)
pay_to texts settings now invoice request db (some merchant) =
    if is_active_merchant merchant.status
    then pay_with texts settings now invoice request db merchant (active_credential db merchant)
    else (err (http 409), db)

unfoldable pub pay_found_invoice :
    InvoiceTexts
    → Settings
    → ℕ
    → InvoicePay
    → Session
    → Option Invoice
    → Result InvoiceReply × Session
pay_found_invoice texts settings now request db none = (err (http 404), db)
pay_found_invoice texts settings now request db (some invoice) =
    if is_paid invoice.status
    then (ok (InvoiceReply.already_paid invoice), db)
    else if is_closed invoice.status
    then (err (http 409), db)
    else pay_to texts settings now invoice request db
        (first (λ m. m.id == invoice.merchant_account_id) db.merchants)

unfoldable pub pay_public_invoice :
    InvoiceTexts → Settings → ℕ → String → InvoicePay → Session → Result InvoiceReply × Session
pay_public_invoice texts settings now public_id request db =
    pay_found_invoice texts settings now request db
      (first (λ i. text_eq i.public_id public_id) db.invoices)

-- The narrowing of `_invoices_query`: to a merchant, else to an environment.
abbrev invoice_narrowed : Session → Option ℕ → Option Environment → Invoice → Bool
invoice_narrowed db (some merchant_id) key i = i.merchant_account_id == merchant_id
invoice_narrowed db none none i = true
invoice_narrowed db none (some environment) i =
    any (λ m. m.id == i.merchant_account_id && same_environment m.environment environment)
      db.merchants

-- `_invoices_query`
abbrev pub may_see_invoice : Session → Principal → Invoice → Bool
may_see_invoice db principal i =
    i.organization_id == principal.organization_id
    && invoice_narrowed db principal.merchant_id principal.key_environment i

abbrev pub voided_at_time : ℕ → Invoice → Invoice
voided_at_time now i = record i { status = InvoiceStatus.void; voided_at = some now }

-- The flush of a changed invoice.
unfoldable pub save_invoice : Invoice → Session → Session
save_invoice i db = record db { invoices = update (λ row. row.id == i.id) (λ row. i) db.invoices }

unfoldable pub void_found : ℕ → Session → Option Invoice → Result Invoice × Session
void_found now db none = (err (http 404), db)
void_found now db (some i) = if is_paid i.status then (err (http 409), db) else (
  ok (voided_at_time now i),
  audit i.organization_id (some i.merchant_account_id) Action.invoice_voided i.id
      (save_invoice (voided_at_time now i) db),
)

unfoldable pub void_invoice : ℕ → Principal → ℕ → Session → Result Invoice × Session
void_invoice now principal invoice_id db =
    void_found now db
      (first (λ i. may_see_invoice db principal i && i.id == invoice_id) db.invoices)
