-- ===== src/Service/Credentials.antt =====
-- `active_credential`, `decrypted_secrets` and `decrypted_reversal_credentials` of app/service.py.
-- Whether the ciphertexts are there, and whether they decrypt, are columns of the model's credential.
use lynxpay.Prelude.{◌&&◌, ◌==◌, none, some, first, Result, ok, err, http, raise_if, not, ◌>>◌}
use lynxpay.Model.{MerchantAccount, DarajaCredential, same_environment, Session}

unfoldable pub active_credential : Session → MerchantAccount → Result DarajaCredential
active_credential db merchant =
    elim (first
      (λ c.
        c.merchant_account_id == merchant.id
        && c.is_active
        && same_environment c.environment merchant.environment)
      db.credentials) [ none ↦ err (http 409) | some credential ↦ ok credential ]

unfoldable pub decrypted_secrets : DarajaCredential → Result (Unit {0})
decrypted_secrets credential = raise_if (not credential.decryptable) (http 500)

unfoldable pub decrypted_reversal_credentials : DarajaCredential → Result (Unit {0})
decrypted_reversal_credentials credential =
    raise_if (not credential.reversal_present) (http 409)
    >> raise_if (not credential.reversal_decryptable) (http 500)
