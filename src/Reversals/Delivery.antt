-- ===== src/Reversals/Delivery.antt =====
-- `receive_reversal_callback` of app/routers/reversals.py: what is delivered, the stored callback, and
-- the reversal that it is about.
use lynxpay.Service.{audit}
use lynxpay.Reversals.Rows.{is_queryable}
use lynxpay.Model.{
  Action, ReversalRequest, Session, MerchantAccount, ReversalProcessing, CallbackType,
  ReversalCallback,
}
use lynxpay.Prelude.{
  ℕ, ◌+◌, Bool, true, false, ◌&&◌, ◌||◌, ◌==◌, same_text, truthy, any, String, Option, none, some,
  ◌∷◌, first, update, if◌then◌else◌,
}

-- What `_result_fields` extracts; `transaction_id` is the text of `str`, and `transaction_status` the
-- text after `str`, `strip` and `lower`.
pub record ResultFields : Type 0 where
  pub originator_conversation_id : Option String
  pub conversation_id : Option String
  pub result_code : Option String
  pub transaction_id : Option String
  pub transaction_status : String

-- One delivery: its size against the limit, `callback_allowed`, and its fields.
pub record ReversalDelivery : Type 0 where
  pub oversized : Bool
  pub allowed : Bool
  pub fields : ResultFields

-- What the handler answers where it raises nothing.
pub data ReversalReceipt : Type 0 where
  accepted : ReversalReceipt

-- `callback_type.startswith("status-")`
abbrev pub is_status_type : CallbackType → Bool
is_status_type CallbackType.status_result = true
is_status_type CallbackType.status_timeout = true
is_status_type _ = false

-- `str(value) if value else None`
abbrev pub text_or_none : Option String → Option String
text_or_none text = if truthy text then text else none

abbrev pub new_reversal_callback :
    ℕ → ℕ → MerchantAccount → CallbackType → ResultFields → ReversalCallback
new_reversal_callback now key merchant kind fields = record {
  id = key;
  merchant_account_id = merchant.id;
  reversal_request_id = none;
  callback_type = kind;
  originator_conversation_id = fields.originator_conversation_id;
  conversation_id = fields.conversation_id;
  result_code = fields.result_code;
  transaction_id = text_or_none fields.transaction_id;
  processing_status = ReversalProcessing.received;
  processed_at = none;
  received_at = now;
}

-- The first commit: the callback and its audit entry.
unfoldable pub store_reversal_callback : MerchantAccount → ReversalCallback → Session → Session
store_reversal_callback merchant c db =
    audit merchant.organization_id (some merchant.id) Action.reversal_callback_received c.id
      (record db { next_id = c.id + 1; reversal_callbacks = c ∷ db.reversal_callbacks })

-- The flush of a changed callback.
unfoldable pub save_reversal_callback : ReversalCallback → Session → Session
save_reversal_callback c db = record db {
  reversal_callbacks = update (λ row. row.id == c.id) (λ row. c) db.reversal_callbacks;
}

-- `callback.processing_status = status` and `callback.processed_at = now`.
abbrev pub processed_as : ℕ → ReversalProcessing → ReversalCallback → ReversalCallback
processed_as now status c = record c { processing_status = status; processed_at = some now }

-- An early return with a commit.
abbrev pub close_as : ℕ → ReversalProcessing → ReversalCallback → Session → Session
close_as now status c = save_reversal_callback (processed_as now status c)

-- `provider_ids`, joined by `or_`; with no id there is no query.
abbrev pub by_provider_ids : MerchantAccount → ResultFields → ReversalRequest → Bool
by_provider_ids merchant fields r =
    r.merchant_account_id == merchant.id
    && ((truthy fields.originator_conversation_id
          && same_text r.originator_conversation_id fields.originator_conversation_id)
        || (truthy fields.conversation_id && same_text r.conversation_id fields.conversation_id))

-- The join with the payment that has the receipt.
abbrev pub by_receipt : MerchantAccount → ResultFields → Session → ReversalRequest → Bool
by_receipt merchant fields db r =
    r.merchant_account_id == merchant.id
    && is_queryable r.status
    && any (λ p. p.id == r.payment_id && same_text p.mpesa_receipt_number fields.transaction_id)
        db.payments

abbrev pub matched_by_receipt :
    MerchantAccount → CallbackType → ResultFields → Session → Option ReversalRequest
matched_by_receipt merchant kind fields db =
    if is_status_type kind && truthy fields.transaction_id
    then first (by_receipt merchant fields db) db.reversals
    else none

-- The reversal that the callback is about.
unfoldable pub matched_reversal :
    MerchantAccount → CallbackType → ResultFields → Session → Option ReversalRequest
matched_reversal merchant kind fields db =
    elim (first (by_provider_ids merchant fields) db.reversals) [
      | some r ↦ some r
      | none ↦ matched_by_receipt merchant kind fields db
    ]
