-- ===== src/Stk/Replies.antt =====
-- How a creation ends: submitted, replayed or refused.
use lynxpay.Stk.Total.{IsAnswered}
use lynxpay.Prelude.{All, IsIn, none, same_text, some, Option, ℕ, true, ◌≡◌, ok}
use lynxpay.Model.{MerchantAccount, Session, Payment}
use lynxpay.Stk.{StkReply, StkPushCreate, scoped_merchant, Principal}
use lynxpay.Stk.Earlier.{IsEarlier}

-- The merchant that the request names, seen by the principal.
abbrev pub IsMerchantOf : Session → Principal → StkPushCreate → MerchantAccount → Type 0
IsMerchantOf db principal payload m =
    (scoped_merchant db principal payload.merchant_id ≡ ok m)
    × (m.id ≡ payload.merchant_id)
    × (m.organization_id ≡ principal.organization_id)

-- What a creation returns: an answered payment, or the payment of the earlier request.
abbrev IsReply : Option Payment → StkPushCreate → StkReply → Type 0
IsReply existing payload (StkReply.submitted p) = (existing ≡ none) × IsAnswered p
IsReply existing payload (StkReply.replayed p) =
    (existing ≡ some p) × (same_text p.idempotency_request_hash (some payload.fingerprint) ≡ true)

-- The same by what the table has of the merchant: no earlier payment, and a new one is answered; or
-- an earlier payment, whose fingerprint is the request's.
abbrev pub IsOutcome : Session → StkPushCreate → ℕ → StkReply → Type 0
IsOutcome db payload k (StkReply.submitted p) =
    All (λ row. ¬ IsEarlier payload k row) db.payments × IsAnswered p
IsOutcome db payload k (StkReply.replayed p) =
    (IsIn p db.payments)
    × IsEarlier payload k p
    × (p.idempotency_request_hash ≡ some payload.fingerprint)

-- The reply, for the merchant of the request.
abbrev pub IsReplyFor : Session → Principal → StkPushCreate → StkReply → Type 0
IsReplyFor db principal payload reply =
    (m : MerchantAccount) × IsMerchantOf db principal payload m × IsOutcome db payload m.id reply
