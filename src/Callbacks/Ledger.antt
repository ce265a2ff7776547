-- ===== src/Callbacks/Ledger.antt =====
-- The callback handler and the ledger: at most one recorded move, and the coupling is kept.
use lynxpay.Prelude.{
  is_none, ◌||◌, truthy, not, if_both, ℕ, Bool, ◌≡◌, refl, sym, ◌∙◌, inl, inr, Option, none, some,
  first, Result, ok, err, Ensures, Result-cases, arith,
}
use lynxpay.Model.{
  Processing, Action, MerchantAccount, Payment, PaymentAttempt, MpesaCallback, Session, Settings,
  Library,
}
use lynxpay.StateMachine.{transition_payment}
use lynxpay.Service.{
  audit, ledger, record_transition, transition_and_record, save_payment, save_attempt,
  save_callback, queue_webhooks, CallbackFields,
}
use lynxpay.Service.Coupling.{
  IsCoupled, Held, IsCoupled-same, save-IsCoupled, Held-found, ledger-save,
}
use lynxpay.Service.Recorded.{Recorded, Held-Recorded}
use lynxpay.Callbacks.{
  receive_for, Reply, CallbackRequest, Work, store_callback, close_callback, commit_callback,
  answer_callback, conflict, repeated_receipt, enrich_success, verified_success, unverified_success,
  apply_success, apply_failure, move_to, apply_callback, finish_callback, process_callback,
  screen_callback, receive_mpesa_callback,
}

module _ (lib : Library) (now : ℕ) (merchant : MerchantAccount) (fields : CallbackFields) where
  apply_success-Recorded :
      (w w' : Work)
      → apply_success lib now merchant fields w ≡ ok w'
      → Recorded w.db w.payment w'.db w'.payment
  unfolding apply_success conflict repeated_receipt enrich_success verified_success
      unverified_success transition_and_record transition_payment record_transition ledger audit
  apply_success-Recorded w w' h = ground arith

  apply_failure-Recorded :
      (w w' : Work) → apply_failure now fields w ≡ ok w' → Recorded w.db w.payment w'.db w'.payment
  unfolding apply_failure move_to transition_and_record transition_payment record_transition ledger
      audit
  apply_failure-Recorded w w' h = ground arith

  pub apply_callback-Recorded :
      (w w' : Work)
      → apply_callback lib now merchant fields w ≡ ok w'
      → Recorded w.db w.payment w'.db w'.payment
  unfolding apply_callback conflict audit
  apply_callback-Recorded w w' h =
      ground (arith, apply_success-Recorded w w', apply_failure-Recorded w w')

pub finish_tables :
    (settings : Settings) (now : ℕ) (w : Work)
    → ((finish_callback settings now w).ledger ≡ w.db.ledger)
      × ((finish_callback settings now w).payments ≡ (save_payment w.payment w.db).payments)
unfolding finish_callback save_payment save_attempt save_callback queue_webhooks
finish_tables settings now w = ground arith

finish-IsCoupled :
    {start : Session} {before : Payment} (settings : Settings) (now : ℕ) (w : Work)
    → IsCoupled start
    → Held start before w.db w.payment
    → IsCoupled (finish_callback settings now w)
finish-IsCoupled settings now w c h =
    let (el, ep) = finish_tables settings now w in
    IsCoupled-same (save-IsCoupled c h) (el ∙ sym (ledger-save w.payment w.db)) ep

module _ (lib : Library) (settings : Settings) (now : ℕ) (merchant : MerchantAccount)
    (req : CallbackRequest) where
  abbrev Ends : Result Reply × Session → Type 0
  Ends r = IsCoupled r.1

  -- An early return writes neither payments nor the ledger.
  close-IsCoupled :
      (status : Processing) (action : Action) (callback : MpesaCallback) {db : Session}
      → IsCoupled db
      → IsCoupled (close_callback now merchant status action callback db)
  unfolding close_callback save_callback audit
  close-IsCoupled status action callback c = IsCoupled-same c refl refl

  commit-IsCoupled :
      (before : Payment) (stored : Session) (raw : MpesaCallback) (r : Result Work)
      → IsCoupled stored
      → Ensures (λ w. Held stored before w.db w.payment) r
      → IsCoupled (commit_callback settings now merchant req stored raw r).1
  unfolding commit_callback
  commit-IsCoupled before stored raw (err e) c h = c
  commit-IsCoupled before stored raw (ok w) c h =
      if_both IsCoupled req.commit_conflict (unfold audit in IsCoupled-same c refl refl)
        (finish-IsCoupled settings now w c h)

  apply-Held :
      {stored : Session} {before : Payment} (w : Work)
      → Held stored before w.db w.payment
      → Ensures
          (λ w'. Held stored before w'.db w'.payment)
          (apply_callback lib now merchant req.fields w)
  apply-Held w h = elim (Result-cases (apply_callback lib now merchant req.fields w)) [
    | inr (e, q) ↦ rw q tt
    | inl (w', q) ↦
        rw q (Held-Recorded h (apply_callback-Recorded lib now merchant req.fields w w' q))
  ]

  answer-IsCoupled :
      {before : Payment} (stored : Session) (w : Work) (previous : Option MpesaCallback)
      → IsCoupled stored
      → Held stored before w.db w.payment
      → IsCoupled (answer_callback lib settings now merchant req stored w previous).1
  unfolding answer_callback
  answer-IsCoupled {before} stored w (some previous) c h = close-IsCoupled _ _ _ c
  answer-IsCoupled {before} stored w none c h =
      commit-IsCoupled before stored w.callback _ c (apply-Held w h)

  process-IsCoupled :
      (stored : Session) (raw : MpesaCallback) (attempt : Option PaymentAttempt)
      (test : Payment → Bool) (found : Option Payment)
      → IsCoupled stored
      → first test stored.payments ≡ found
      → IsCoupled (process_callback lib settings now merchant req stored raw attempt found).1
  unfolding process_callback
  process-IsCoupled stored raw attempt test none c e = close-IsCoupled _ _ _ c
  process-IsCoupled stored raw attempt test (some payment) c e =
      answer-IsCoupled stored _ _ c (Held-found test c e)

  screen-IsCoupled :
      (callback : MpesaCallback) (stored : Session)
      → IsCoupled stored
      → IsCoupled (screen_callback lib settings now merchant req callback stored).1
  unfolding screen_callback
  screen-IsCoupled callback stored c = if_both Ends req.oversized (close-IsCoupled _ _ _ c) (
      if_both Ends (not req.allowed) (close-IsCoupled _ _ _ c) (
        if_both Ends (not (truthy req.fields.checkout_request_id) || is_none req.fields.result_code)
          (close-IsCoupled _ _ _ c) (process-IsCoupled stored callback _ _ _ c refl)))

module _ (lib : Library) (settings : Settings) (now : ℕ) (req : CallbackRequest) where
  receive_for-IsCoupled :
      (db : Session) (merchant : Option MerchantAccount)
      → IsCoupled db
      → IsCoupled (receive_for lib settings now req db merchant).1
  unfolding receive_for store_callback audit
  receive_for-IsCoupled db none c = c
  receive_for-IsCoupled db (some merchant) c =
      screen-IsCoupled lib settings now merchant req _ _ (IsCoupled-same c refl refl)

  -- Whatever a callback brings, on every branch, the ledger stays linked and shows the status of
  -- every payment.
  pub receive-IsCoupled :
      (merchant_id : ℕ) (db : Session)
      → IsCoupled db
      → IsCoupled (receive_mpesa_callback lib settings now merchant_id req db).1
  unfolding receive_mpesa_callback
  receive-IsCoupled merchant_id db c = receive_for-IsCoupled db _ c
