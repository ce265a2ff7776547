-- ===== src/Lib.antt =====
-- LynxPay takes M-PESA payments for merchants through Safaricom's Daraja API. A merchant's server
-- creates a payment, LynxPay asks Daraja to prompt the customer (STK push), Daraja calls back with
-- the result, and a worker asks for the status of payments whose callback does not come. This
-- library models that core of the Python code under app/ and proves what keeps it correct.
--
-- The parts, and the files that model them:
--   Prelude            tests, list queries, sorted pages, results with errors, integers
--   Model              app/models.py: the enumerations and tables, the session and the settings
--   StateMachine       app/state_machine.py: transition_payment, begin_payment_retry
--   ProviderCodes      app/provider_codes.py: classify_mpesa_result
--   Phone              app/schemas.py: normalize_kenyan_phone
--   Service            app/service.py: audit, ledger, transition_and_record with the invoices,
--                      begin_retry_and_record, credentials, queue_webhooks, callback_matches_payment
--   Callbacks          app/routers/callbacks.py: receive_mpesa_callback
--   Reconciliation     app/reconciliation.py: claim_reconciliations, and reconcile_payment in its two
--                      transactions (begin_reconcile, finish_reconcile)
--   Stk                app/routers/payments.py: create_stk_push, _submit_stk_attempt, retry_payment;
--                      scoped_merchant of app/deps.py; abandon_stale_stk_submissions of
--                      app/maintenance.py
--   Webhooks           app/webhooks.py: claim_deliveries, deliver_claimed, _retry_delay
--   Invoices           app/routers/invoices.py: pay_public_invoice, void_invoice
--   Reversals          app/reversal_controls.py: reversal_binding_error;
--                      app/routers/reversals.py: request_reversal, approve_reversal,
--                      cancel_reversal, query_reversal_status (start_status_query,
--                      finish_status_query) and receive_reversal_callback; app/reversals.py:
--                      claim_reversals, and submit_claimed_reversal up to and from its provider
--                      call (start_submission, finish_submission)
--   Examples           concrete rows
--
-- The parts meet in the session: a record of tables, newest rows first, that a handler takes and
-- returns as committed. A write to a row under way reaches its table when the handler flushes it.
-- Every change of a payment's status goes through transition_and_record or begin_retry_and_record,
-- which call the state machine and append a ledger entry; Service/Coupling states the invariant that
-- ties the ledger to the payments. A reversal is requested, approved by a second user, claimed and
-- sent by a worker, and ended by a callback; Reversals/Reach has each of these commits as a step.
--
-- Conventions. Keys are numbers, and next_id gives keys that no row had. Amounts are whole cents,
-- times are seconds, phone numbers are lists of code points. An exception is an error value, with
-- the session that is left: the one before for a rollback, the one stored where an earlier commit
-- has passed. What Python, Daraja and the database decide is a parameter: decimal parsing and \d
-- (Library), the provider's answer, whether the ciphertexts of a credential are there and decrypt,
-- whether a callback's source is allowed, whether a commit meets a unique index. Loops are
-- structural recursion on the rows, so no fuel is needed.
--
-- Not modelled: authentication, the creation of invoices, the Daraja client, cryptography, views,
-- metrics. Other transactions between the commit of an attempt and the provider's answer to it are
-- not modelled; between the two phases of reconcile_payment any change of the session is allowed,
-- and between the two halves of a reversal's submission any steps of Reversals/Reach.
pub mod Prelude
pub mod Model
pub mod StateMachine
pub mod ProviderCodes
pub mod Phone
pub mod Service
pub mod Callbacks
pub mod Reconciliation
pub mod Stk
pub mod Webhooks
pub mod Invoices
pub mod Reversals
pub mod Examples
