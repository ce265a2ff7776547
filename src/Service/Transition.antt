-- ===== src/Service/Transition.antt =====
-- `transition_and_record` and `begin_retry_and_record` of app/service.py.
use lynxpay.Prelude.{
  ℕ, Bool, true, false, ◌&&◌, ◌==◌, has_id, Option, none, some, List, first, update, Result, ok,
  err, if◌then◌else◌,
}
use lynxpay.Model.{PaymentStatus, InvoiceStatus, EventType, Action, Payment, Invoice, Session}
use lynxpay.StateMachine.{transition_payment, begin_payment_retry}
use lynxpay.Service.Log.{audit_payment, ledger}

-- The invoice query's filters that both branches share.
abbrev pub invoice_of : Payment → ℕ → Invoice → Bool
invoice_of payment invoice_id invoice =
    invoice.id == invoice_id
    && invoice.organization_id == payment.organization_id
    && invoice.merchant_account_id == payment.merchant_account_id

abbrev pub is_paid : InvoiceStatus → Bool
is_paid InvoiceStatus.paid = true
is_paid _ = false

abbrev write_invoice : Invoice → List Invoice → List Invoice
write_invoice invoice = update (λ row. row.id == invoice.id) (λ row. invoice)

-- `if invoice and invoice.status != "paid": …`
unfoldable pub pay_found : ℕ → Payment → Option Invoice → List Invoice → List Invoice
pay_found now payment none invoices = invoices
pay_found now payment (some invoice) invoices =
    if is_paid invoice.status
    then invoices
    else write_invoice
        (record invoice {
          status = InvoiceStatus.paid;
          payment_id = some payment.id;
          paid_at = some now;
        })
        invoices

-- `if invoice: …`
unfoldable pub release_found : Option Invoice → List Invoice → List Invoice
release_found none invoices = invoices
release_found (some invoice) invoices =
    write_invoice
      (record invoice { status = InvoiceStatus.sent; payment_id = none; paid_at = none }) invoices

-- The invoices after a move to `success` or `reversed` of a payment with this `invoice_id`.
unfoldable pub settle_invoices :
    ℕ → Payment → PaymentStatus → Option ℕ → List Invoice → List Invoice
settle_invoices now payment PaymentStatus.success (some invoice_id) invoices =
    pay_found now payment (first (invoice_of payment invoice_id) invoices) invoices
settle_invoices now payment PaymentStatus.reversed (some invoice_id) invoices =
    release_found
      (first
        (λ invoice. invoice_of payment invoice_id invoice && has_id invoice.payment_id payment.id)
        invoices)
      invoices
settle_invoices now payment target invoice_id invoices = invoices

-- The audit action: the outcome for `success` and `failed`, else the event type.
abbrev pub transition_action : PaymentStatus → EventType → Action
transition_action PaymentStatus.success event_type = Action.payment_marked PaymentStatus.success
transition_action PaymentStatus.failed event_type = Action.payment_marked PaymentStatus.failed
transition_action target event_type = Action.event event_type

-- The work after `transition_payment` has passed; `payment` has its new status.
unfoldable pub record_transition :
    ℕ → Payment → PaymentStatus → PaymentStatus → EventType → Session → Session
record_transition now payment previous target event_type db =
    let ledgered = ledger payment event_type (some previous) db in
    let settled = record ledgered {
      invoices = settle_invoices now payment target payment.invoice_id ledgered.invoices;
    } in
    audit_payment payment (transition_action target event_type) payment.id settled

unfoldable pub transition_and_record :
    ℕ → PaymentStatus → EventType → Session → Payment → Result (Session × Payment)
transition_and_record now target event_type db payment = elim (transition_payment payment target) [
  | err e ↦ err e
  | ok (moved, previous) ↦ ok (record_transition now moved previous target event_type db, moved)
]

unfoldable pub begin_retry_and_record : Session → Payment → Result (Session × Payment)
begin_retry_and_record db payment = elim (begin_payment_retry payment) [
  | err e ↦ err e
  | ok (moved, previous) ↦ ok (
    audit_payment moved Action.payment_retry_initiated moved.id
        (ledger moved EventType.payment_retry_started (some previous) db),
    moved,
  )
]
