-- ===== src/Stk/Access.antt =====
-- What a principal may see: `scoped_merchant` of app/deps.py and `_payments_query` of
-- app/routers/payments.py.
use lynxpay.Prelude.{
  ℕ, Bool, true, ◌&&◌, ◌==◌, any, first, Option, none, some, Result, ok, err, http,
}
use lynxpay.Model.{Environment, same_environment, MerchantAccount, Payment, Session}

-- `key_environment` is the environment of an API key; `none` for a session of a person.
pub record Principal : Type 0 where
  pub organization_id : ℕ
  pub user_id : Option ℕ
  pub merchant_id : Option ℕ
  pub key_environment : Option Environment
  pub is_control_plane_admin : Bool

abbrev in_merchant : Option ℕ → ℕ → Bool
in_merchant none id = true
in_merchant (some merchant_id) id = id == merchant_id

abbrev in_environment : Option Environment → MerchantAccount → Bool
in_environment none merchant = true
in_environment (some environment) merchant = same_environment merchant.environment environment

abbrev pub may_see_merchant : Principal → ℕ → MerchantAccount → Bool
may_see_merchant principal merchant_id merchant =
    merchant.id == merchant_id
    && merchant.organization_id == principal.organization_id
    && in_merchant principal.merchant_id merchant.id
    && in_environment principal.key_environment merchant

unfoldable pub found_merchant : Option MerchantAccount → Result MerchantAccount
found_merchant none = err (http 404)
found_merchant (some merchant) = ok merchant

unfoldable pub scoped_merchant : Session → Principal → ℕ → Result MerchantAccount
unfolding found_merchant
scoped_merchant db principal merchant_id =
    found_merchant (first (may_see_merchant principal merchant_id) db.merchants)

-- The narrowing of the query: to a merchant, else to an environment.
narrowed : Session → Option ℕ → Option Environment → Payment → Bool
narrowed db (some merchant_id) key payment = payment.merchant_account_id == merchant_id
narrowed db none none payment = true
narrowed db none (some environment) payment =
    any (λ m. m.id == payment.merchant_account_id && same_environment m.environment environment)
      db.merchants

-- The filter of `_payments_query`.
unfoldable pub may_see_payment : Session → Principal → Payment → Bool
unfolding narrowed
may_see_payment db principal payment =
    payment.organization_id == principal.organization_id
    && narrowed db principal.merchant_id principal.key_environment payment
