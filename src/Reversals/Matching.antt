-- ===== src/Reversals/Matching.antt =====
-- The reversal that a callback matches has been sent, and the verdicts move it along the lifecycle.
use lynxpay.Reversals.Life.{IsSame-refl, ids_ok, Moves}
use lynxpay.Reversals.Rows.{is_terminal, is_queryable}
use lynxpay.Reversals.Delivery.{
  by_receipt, by_provider_ids, ResultFields, matched_reversal, matched_by_receipt,
}
use lynxpay.Reversals.Settle.{resulted_in, moved_to, succeeded_with}
use lynxpay.Model.{Session, CallbackType, MerchantAccount, ReversalRequest, ReversalStatus}
use lynxpay.Prelude.{
  ℕ, Bool, true, false, Option, none, some, first, first_sound, ◌≡◌, refl, ◌∙◌, arith,
}

-- A callback that finds a row by the provider's ids finds one that the provider has answered.
matched-queryable :
    (merchant : MerchantAccount) (fields : ResultFields) (r : ReversalRequest)
    → by_provider_ids merchant fields r ≡ true
    → is_terminal r.status ≡ false
    → ids_ok r ≡ true
    → is_queryable r.status ≡ true
matched-queryable merchant fields r h t s = ground (arith, h, t, s)

-- The row that a callback is about, where its reversal has not ended.
pub matched_reversal-queryable :
    (merchant : MerchantAccount) (kind : CallbackType) (fields : ResultFields) (db : Session)
    (r : ReversalRequest)
    → matched_reversal merchant kind fields db ≡ some r
    → is_terminal r.status ≡ false
    → ids_ok r ≡ true
    → is_queryable r.status ≡ true
unfolding matched_reversal
matched_reversal-queryable merchant kind fields db r h t s = by_ids _ refl h
  where
    by_ids :
        (found : Option ReversalRequest)
        → first (by_provider_ids merchant fields) db.reversals ≡ found
        → (elim found [ some q ↦ some q | none ↦ matched_by_receipt merchant kind fields db ])
          ≡ some r
        → is_queryable r.status ≡ true
    by_ids (some q) e k =
        matched-queryable merchant fields r
          (first_sound (by_provider_ids merchant fields) db.reversals r (e ∙ k)) t s
    by_ids none e k = ground (arith, k, first_sound (by_receipt merchant fields db) db.reversals r)

-- The verdicts that a callback may bring.
abbrev is_verdict : ReversalStatus → Bool
is_verdict ReversalStatus.timeout = true
is_verdict ReversalStatus.unknown = true
is_verdict ReversalStatus.failed = true
is_verdict ReversalStatus.succeeded = true
is_verdict _ = false

pub moved_to-Moves :
    (now : ℕ) (t : ReversalStatus) (r : ReversalRequest)
    → is_verdict t ≡ true
    → is_queryable r.status ≡ true
    → Moves r (moved_to now t r)
moved_to-Moves now t r v h = (IsSame-refl r, λ s. ground (arith, v, h, s))

pub resulted_in-Moves :
    (now : ℕ) (t : ReversalStatus) (fields : ResultFields) (r : ReversalRequest)
    → is_verdict t ≡ true
    → is_queryable r.status ≡ true
    → Moves r (resulted_in now t fields r)
resulted_in-Moves now t fields r v h = (IsSame-refl r, λ s. ground (arith, v, h, s))

pub succeeded_with-Moves :
    (now : ℕ) (kind : CallbackType) (fields : ResultFields) (r : ReversalRequest)
    → is_queryable r.status ≡ true
    → Moves r (succeeded_with now kind fields r)
succeeded_with-Moves now kind fields r h = (IsSame-refl r, λ s. ground (arith, h, s))
