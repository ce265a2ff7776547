-- ===== src/Invoices/Guards.antt =====
-- When an invoice is paid, and how that ends.
use lynxpay.Stk.Total.{IsAnswered}
use lynxpay.Stk.{is_active_merchant}
use lynxpay.Stk.Guards.{OrFails}
use lynxpay.Model.{Invoice, MerchantAccount, Settings, Session}
use lynxpay.Service.{is_paid}
use lynxpay.Invoices.{pending_for, is_closed, InvoicePay, InvoiceReply, InvoiceTexts}
use lynxpay.Prelude.{
  ◌⊎◌, text_eq, String, ℕ, true, false, ◌≡◌, ◌==◌, none, some, first, Result, http, Error,
}

-- The reply: the invoice was paid before; or it is neither paid nor closed, none of its payments was
-- under way, its merchant is active, and the payment of this request is answered.
abbrev pub IsSettlement : String → Session → InvoiceReply → Type 0
IsSettlement public_id db (InvoiceReply.already_paid i) =
    (first (λ row. text_eq row.public_id public_id) db.invoices ≡ some i)
    × (is_paid i.status ≡ true)
IsSettlement public_id db (InvoiceReply.paying p) =
    (i : Invoice) × (m : MerchantAccount) × (first (λ row. text_eq row.public_id public_id)
        db.invoices
      ≡ some i)
    × (is_paid i.status ≡ false)
    × (is_closed i.status ≡ false)
    × (first (λ row. row.id == i.merchant_account_id) db.merchants ≡ some m)
    × (is_active_merchant m.status ≡ true)
    × (first (pending_for i) db.payments ≡ none)
    × IsAnswered p

-- The errors: 404 where no invoice has the public id, and 409 where it has one that is not paid.
abbrev pub IsPayRefusal : String → Session → Error → Type 0
IsPayRefusal public_id db e =
    ((e ≡ http 404) × (first (λ row. text_eq row.public_id public_id) db.invoices ≡ none))
    ⊎ ((e ≡ http 409)
        × ((i : Invoice) × (first (λ row. text_eq row.public_id public_id) db.invoices ≡ some i)
            × (is_paid i.status ≡ false)))

module _ (texts : InvoiceTexts) (settings : Settings) (now : ℕ) (public_id : String)
    (request : InvoicePay) (db : Session) where
  abbrev Settles : Result InvoiceReply × Session → Type 0
  Settles s = OrFails (IsPayRefusal public_id db) (IsSettlement public_id db) s.0
