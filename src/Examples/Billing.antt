-- ===== src/Examples/Billing.antt =====
-- A void invoice whose payment goes through and is reversed, and an invoice that is paid.
use lynxpay.Invoices.Ledger.{pay-IsCoupled}
use lynxpay.Examples.Callback.{sent_db-IsCoupled}
use lynxpay.Service.Coupling.{IsCoupled-same, IsCoupled}
use lynxpay.Invoices.{pay_public_invoice, InvoicePay, InvoiceTexts}
use lynxpay.Prelude.{false, ◌&&◌, ◌≡◌, refl, none, some, [], ◌∷◌, first, has_id}
use lynxpay.Model.{Session, PaymentStatus, InvoiceStatus, Invoice}
use lynxpay.Service.{settle_invoices, invoice_of}
use lynxpay.Service.Invoices.{paid_by, released, settle-reversed}
use lynxpay.Examples.Data.{settings, phone, sent_db, taking, sent}

abbrev voided : Invoice
voided = record {
  id = 40;
  public_id = "inv_1";
  invoice_number = "INV-1";
  organization_id = 2;
  merchant_account_id = 1;
  amount = 10000;
  currency = "KES";
  status = InvoiceStatus.void;
  paid_at = none;
  voided_at = some 990;
  payment_id = none;
}

settle-reversed_example :
    let paid_rows = settle_invoices 1010 sent PaymentStatus.success (some 40) (voided ∷ []) in
    (first (λ row. invoice_of sent 40 row && has_id row.payment_id sent.id) paid_rows
      ≡ some (paid_by 1010 sent voided))
    × (first
          (invoice_of sent 40)
          (settle_invoices 2000 sent PaymentStatus.reversed (some 40) paid_rows)
        ≡ some (released voided))
settle-reversed_example = settle-reversed 1010 2000 sent 40 voided (voided ∷ []) refl refl

abbrev sent_invoice : Invoice
sent_invoice = record voided { status = InvoiceStatus.sent; voided_at = none }

abbrev invoiced_db : Session
invoiced_db = record sent_db { invoices = sent_invoice ∷ [] }

abbrev texts : InvoiceTexts
texts = record { reference = λ number attempt. number; fingerprint = λ key phone attempt. "hash" }

abbrev pay_request : InvoicePay
pay_request = record { raced = false; taken = false; answer = taking; phone_number = phone }

invoiced_db-IsCoupled : IsCoupled invoiced_db
invoiced_db-IsCoupled = IsCoupled-same sent_db-IsCoupled refl refl

pay-IsCoupled_example :
    IsCoupled (pay_public_invoice texts settings 1100 "inv_1" pay_request invoiced_db).1
pay-IsCoupled_example =
    pay-IsCoupled texts settings 1100 "inv_1" pay_request invoiced_db invoiced_db-IsCoupled refl
