-- ===== src/Service/Invoices.antt =====
-- What the success and the reversal of a payment do to its invoice.
use lynxpay.Prelude.{
  ℕ, true, false, ◌&&◌, ◌==◌, ◌≡◌, none, some, List, first, first_sound, first-update, has_id,
  arith,
}
use lynxpay.Model.{PaymentStatus, InvoiceStatus, Payment, Invoice}
use lynxpay.Service.{settle_invoices, invoice_of, is_paid, pay_found, release_found}

-- The invoice that a successful payment has paid.
abbrev pub paid_by : ℕ → Payment → Invoice → Invoice
paid_by now payment invoice = record invoice {
  status = InvoiceStatus.paid;
  payment_id = some payment.id;
  paid_at = some now;
}

-- The invoice that a reversed payment has released.
abbrev pub released : Invoice → Invoice
released invoice = record invoice { status = InvoiceStatus.sent; payment_id = none; paid_at = none }

invoice_of-paid_by :
    (now : ℕ) (payment : Payment) (k : ℕ) (i : Invoice)
    → invoice_of payment k i ≡ true
    → (invoice_of payment k (paid_by now payment i) && has_id (some payment.id) payment.id) ≡ true
invoice_of-paid_by now payment k i h = ground (arith, h)

same_id : (i : Invoice) → (i.id == i.id) ≡ true
same_id i = ground arith

pays :
    (now : ℕ) (payment : Payment) (k : ℕ) (i : Invoice) (rows : List Invoice)
    → first (invoice_of payment k) rows ≡ some i
    → is_paid i.status ≡ false
    → first
        (λ row. invoice_of payment k row && has_id row.payment_id payment.id)
        (settle_invoices now payment PaymentStatus.success (some k) rows)
      ≡ some (paid_by now payment i)
unfolding settle_invoices pay_found
pays now payment k i rows found open_invoice =
    rw (found, open_invoice)
      (first-update (invoice_of payment k) _ (λ row. row.id == i.id) i (paid_by now payment i) rows
        (λ z h. ground (arith, h)) found (same_id i)
        (invoice_of-paid_by now payment k i (first_sound (invoice_of payment k) rows i found)))

still_first :
    (now : ℕ) (payment : Payment) (k : ℕ) (i : Invoice) (rows : List Invoice)
    → first (invoice_of payment k) rows ≡ some i
    → is_paid i.status ≡ false
    → first (invoice_of payment k) (settle_invoices now payment PaymentStatus.success (some k) rows)
      ≡ some (paid_by now payment i)
unfolding settle_invoices pay_found
still_first now payment k i rows found open_invoice =
    rw (found, open_invoice)
      (first-update (invoice_of payment k) (invoice_of payment k) (λ row. row.id == i.id) i
        (paid_by now payment i) rows (λ z h. h) found (same_id i)
        (first_sound (invoice_of payment k) rows i found))

-- Where the query finds an invoice that is not paid, the success of the payment pays it, and the
-- reversal of the payment then releases it: it ends as `sent`, without payment and time, whatever
-- its status was before, `void` included.
pub settle-reversed :
    (now later : ℕ) (payment : Payment) (k : ℕ) (i : Invoice) (rows : List Invoice)
    → first (invoice_of payment k) rows ≡ some i
    → is_paid i.status ≡ false
    → let paid_rows = settle_invoices now payment PaymentStatus.success (some k) rows in
      (first (λ row. invoice_of payment k row && has_id row.payment_id payment.id) paid_rows
        ≡ some (paid_by now payment i))
      × (first
            (invoice_of payment k)
            (settle_invoices later payment PaymentStatus.reversed (some k) paid_rows)
          ≡ some (released i))
unfolding settle_invoices release_found
settle-reversed now later payment k i rows found open_invoice =
    let paid_rows = settle_invoices now payment PaymentStatus.success (some k) rows in
    let p = pays now payment k i rows found open_invoice in
    let q = still_first now payment k i rows found open_invoice in
    (
      p,
      rw p (
          first-update (invoice_of payment k) (invoice_of payment k) (λ row. row.id == i.id)
            (paid_by now payment i) (released i) paid_rows (λ z h. h) q (same_id i)
            (first_sound (invoice_of payment k) rows i found)),
    )
