-- ===== src/Invoices/Ledger.antt =====
-- The payment of an invoice and the ledger.
use lynxpay.Stk.Total.{Held-self, submit-IsCoupled}
use lynxpay.Stk.{StkWork, is_active_merchant}
use lynxpay.Service.{is_paid, ledger, audit, save_payment}
use lynxpay.Stk.Ledger.{moved-Held, entered-IsCoupled, Opened, IsFresh}
use lynxpay.Service.Coupling.{save-IsCoupled, IsCoupled-same, Held, IsCoupled}
use lynxpay.Model.{
  PaymentStatus, DarajaCredential, MerchantAccount, Payment, Invoice, Session, Settings,
}
use lynxpay.Invoices.{
  insert_invoice_payment, attempt_of, invoice_payment, is_closed, as_invoice_reply, pay_with,
  invoice_attempt, send_invoice_payment, pay_unless_pending, InvoiceReply, pay_to,
  pay_found_invoice, open_invoice_payment, InvoicePay, InvoiceTexts, pay_public_invoice,
}
use lynxpay.Prelude.{String, ℕ, refl, Option, none, some, Ensures, Result, ok, err, if_both}

module _ (texts : InvoiceTexts) (settings : Settings) (now : ℕ) (request : InvoicePay)
    (db : Session) (c : IsCoupled db) (fresh : IsFresh db) where
  abbrev Ends : Result InvoiceReply × Session → Type 0
  Ends s = IsCoupled s.1

  invoice_attempt-Opened :
      (start : Session) (before : Payment) (r : Result (Session × Payment))
      → IsCoupled start
      → Ensures (λ x. Held start before x.0 x.1) r
      → Opened (invoice_attempt now r)
  unfolding invoice_attempt save_payment
  invoice_attempt-Opened start before (err e) k h = tt
  invoice_attempt-Opened start before (ok (d, p)) k h =
      (IsCoupled-same (save-IsCoupled k h) refl refl, h.shown)

  open-Opened :
      (invoice : Invoice) → Opened (open_invoice_payment texts now invoice request.phone_number db)
  unfolding open_invoice_payment audit ledger
  open-Opened invoice =
      let p : Payment =
        invoice_payment texts now db.next_id invoice request.phone_number (attempt_of invoice db) in
      let inserted : IsCoupled (insert_invoice_payment invoice p db) =
        entered-IsCoupled p db _ c fresh refl refl refl refl in
      invoice_attempt-Opened (insert_invoice_payment invoice p db) p _ inserted (
        moved-Held now PaymentStatus.pending (insert_invoice_payment invoice p db) p _
          (Held-self p inserted inserted.current.0) refl)

  send-IsCoupled :
      (merchant : MerchantAccount) (credential : DarajaCredential) (r : Result StkWork)
      → Opened r
      → Ends
          (send_invoice_payment settings now merchant credential request.taken request.answer db r)
  unfolding send_invoice_payment as_invoice_reply
  send-IsCoupled merchant credential (err e) h = c
  send-IsCoupled merchant credential (ok w) h =
      replied _
        (submit-IsCoupled settings now merchant credential request.taken request.answer w h.0 h.1)
    where
      replied : (r : Result Payment × Session) → IsCoupled r.1 → Ends (as_invoice_reply r)
      replied (ok p, d) k = k
      replied (err e, d) k = k

  unless_pending-IsCoupled :
      (invoice : Invoice) (merchant : MerchantAccount) (credential : DarajaCredential)
      (pending : Option Payment)
      → Ends (pay_unless_pending texts settings now invoice request db merchant credential pending)
  unfolding pay_unless_pending
  unless_pending-IsCoupled invoice merchant credential (some p) = c
  unless_pending-IsCoupled invoice merchant credential none =
      if_both Ends request.raced c (send-IsCoupled merchant credential _ (open-Opened invoice))

  pay_to-IsCoupled :
      (invoice : Invoice) (merchant : Option MerchantAccount)
      → Ends (pay_to texts settings now invoice request db merchant)
  unfolding pay_to pay_with
  pay_to-IsCoupled invoice none = c
  pay_to-IsCoupled invoice (some merchant) =
      if_both Ends (is_active_merchant merchant.status) (with_credential _) c
    where
      with_credential :
          (credential : Result DarajaCredential)
          → Ends (pay_with texts settings now invoice request db merchant credential)
      with_credential (err e) = c
      with_credential (ok credential) = unless_pending-IsCoupled invoice merchant credential _

  pay_found-IsCoupled :
      (invoice : Option Invoice) → Ends (pay_found_invoice texts settings now request db invoice)
  unfolding pay_found_invoice
  pay_found-IsCoupled none = c
  pay_found-IsCoupled (some invoice) =
      if_both Ends (is_paid invoice.status) c
        (if_both Ends (is_closed invoice.status) c (pay_to-IsCoupled invoice _))

-- Where the next key is fresh, the payment of an invoice, however it ends, keeps the ledger linked and
-- showing the status of every payment, the new one's included.
pub pay-IsCoupled :
    (texts : InvoiceTexts) (settings : Settings) (now : ℕ) (public_id : String)
    (request : InvoicePay) (db : Session)
    → IsCoupled db
    → IsFresh db
    → IsCoupled (pay_public_invoice texts settings now public_id request db).1
unfolding pay_public_invoice
pay-IsCoupled texts settings now public_id request db c fresh =
    pay_found-IsCoupled texts settings now request db c fresh _
