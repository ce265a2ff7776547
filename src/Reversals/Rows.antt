-- ===== src/Reversals/Rows.antt =====
-- The statuses of reversals, the row queries that the endpoints share, and the write of one row.
use lynxpay.Prelude.{
  ℕ, Bool, true, false, ◌&&◌, ◌==◌, Option, none, some, List, [], ◌∷◌, first, update,
}
use lynxpay.Model.{
  PaymentStatus, ReversalStatus, Action, MerchantAccount, Payment, ReversalRequest, Session,
}
use lynxpay.Service.{audit}
use lynxpay.Stk.{Principal}

abbrev pub reversal_rank : ReversalStatus → ℕ
reversal_rank ReversalStatus.pending_approval = 0
reversal_rank ReversalStatus.approved = 1
reversal_rank ReversalStatus.submitting = 2
reversal_rank ReversalStatus.submitted = 3
reversal_rank ReversalStatus.succeeded = 4
reversal_rank ReversalStatus.failed = 5
reversal_rank ReversalStatus.timeout = 6
reversal_rank ReversalStatus.unknown = 7
reversal_rank ReversalStatus.cancelled = 8

-- `==` on reversal statuses
abbrev pub same_reversal_status : ReversalStatus → ReversalStatus → Bool
same_reversal_status s t = reversal_rank s == reversal_rank t

-- `ACTIVE_REVERSAL_STATUSES`
abbrev pub is_active_reversal : ReversalStatus → Bool
is_active_reversal ReversalStatus.pending_approval = true
is_active_reversal ReversalStatus.approved = true
is_active_reversal ReversalStatus.submitting = true
is_active_reversal ReversalStatus.submitted = true
is_active_reversal ReversalStatus.timeout = true
is_active_reversal ReversalStatus.unknown = true
is_active_reversal _ = false

-- `TERMINAL_REVERSAL_STATUSES`
abbrev pub is_terminal : ReversalStatus → Bool
is_terminal ReversalStatus.succeeded = true
is_terminal ReversalStatus.failed = true
is_terminal ReversalStatus.cancelled = true
is_terminal _ = false

-- `STATUS_QUERYABLE_REVERSAL_STATUSES`
abbrev pub is_queryable : ReversalStatus → Bool
is_queryable ReversalStatus.submitted = true
is_queryable ReversalStatus.timeout = true
is_queryable ReversalStatus.unknown = true
is_queryable _ = false

-- `principal.merchant_id` narrows the query where it is set.
abbrev narrowed_to : Option ℕ → ReversalRequest → Bool
narrowed_to none r = true
narrowed_to (some merchant_id) r = r.merchant_account_id == merchant_id

-- `_scoped_reversals` with the key.
abbrev pub scoped_reversal : Principal → ℕ → ReversalRequest → Bool
scoped_reversal principal reversal_id r =
    r.organization_id == principal.organization_id
    && narrowed_to principal.merchant_id r
    && r.id == reversal_id

-- The query of the original payment.
abbrev pub original_payment : ReversalRequest → Payment → Bool
original_payment r p =
    p.id == r.payment_id
    && p.organization_id == r.organization_id
    && p.merchant_account_id == r.merchant_account_id

abbrev pub reversal_merchant : Session → ReversalRequest → Option MerchantAccount
reversal_merchant db r = first (λ m. m.id == r.merchant_account_id) db.merchants

-- The flush of a changed reversal.
unfoldable pub save_reversal : ReversalRequest → Session → Session
save_reversal r db = record db {
  reversals = update (λ row. row.id == r.id) (λ row. r) db.reversals;
}

-- The audit entry of a reversal's own rows.
abbrev pub audit_reversal : ReversalRequest → Action → Session → Session
audit_reversal r action = audit r.organization_id (some r.merchant_account_id) action r.id

-- `reversal_binding_error` without `eligible_statuses`, and with the two that a confirmation accepts.
abbrev pub only_success : List PaymentStatus
only_success = PaymentStatus.success ∷ []

abbrev pub success_or_reversed : List PaymentStatus
success_or_reversed = PaymentStatus.success ∷ PaymentStatus.reversed ∷ []
