-- ===== src/Stk/Ledger.antt =====
-- Creations and retries keep the ledger linked and current.
use lynxpay.StateMachine.{begin_payment_retry}
use lynxpay.Prelude.{
  ◌∷◌, Ensures, ℕ, Bool, ◌≡◌, refl, sym, Option, none, some, Result, ok, err, All-map, inr, arith,
  first, if_both,
}
use lynxpay.Model.{
  PaymentStatus, EventType, MerchantAccount, DarajaCredential, Payment, PaymentLedgerEntry, Session,
  Settings,
}
use lynxpay.Service.{begin_retry_and_record, transition_and_record, audit, ledger, save_payment}
use lynxpay.Service.Coupling.{
  Held-found, last_status, IsCoupled, Shows, Held, Held-transition, Held-edit, Held-entry,
  IsCoupled-same, save-IsCoupled,
}
use lynxpay.Stk.{
  cleared, retry_payment, retry_found, reopen_payment, retry_attempt, retry_admitted, send_reopened,
  StkReply, StkAnswer, Principal, as_reply, create_stk_push, answer_push, push_admitted,
  first_attempt, send_opened, open_payment, StkWork, StkPushCreate, new_payment, insert_payment,
}
use lynxpay.Stk.Total.{Held-self, submit-IsCoupled}

-- The next key is fresh: no entry of the ledger has it.
abbrev pub IsFresh : Session → Type 0
IsFresh db = last_status db.next_id db.ledger ≡ none

-- What the submission needs of the rows before it.
abbrev pub Opened : Result StkWork → Type 0
Opened (ok w) = IsCoupled w.db × Shows w.db.ledger w.payment
Opened (err e) = Unit

-- The ledger entry of a creation.
abbrev pub created_entry : Payment → PaymentLedgerEntry
created_entry p = record {
  payment_id = p.id;
  event_type = EventType.payment PaymentStatus.created;
  status_from = none;
  status_to = p.status;
  amount = p.amount;
  currency = p.currency;
}

-- The ledger entry of a retry.
abbrev retry_entry : Payment → PaymentLedgerEntry
retry_entry p = record {
  payment_id = p.id;
  event_type = EventType.payment_retry_started;
  status_from = some p.status;
  status_to = PaymentStatus.pending;
  amount = p.amount;
  currency = p.currency;
}

-- A new payment under a fresh key, entered in the ledger as created.
pub entered-IsCoupled :
    (p : Payment) (db d : Session)
    → IsCoupled db
    → IsFresh db
    → p.id ≡ db.next_id
    → p.status ≡ PaymentStatus.created
    → d.ledger ≡ created_entry p ∷ db.ledger
    → d.payments ≡ p ∷ db.payments
    → IsCoupled d
entered-IsCoupled p db d c fresh key status entries rows = IsCoupled-same entered entries rows
  where
    entered :
        IsCoupled (record db { ledger = created_entry p ∷ db.ledger; payments = p ∷ db.payments })
    entered = record {
      linked = (sym (rw key fresh), status, c.linked);
      current = (
        ground arith,
        All-map (Shows db.ledger) _ db.payments (λ q h. ground (arith, h, fresh, key)) c.current,
      );
    }

insert-IsCoupled :
    (now : ℕ) (merchant : MerchantAccount) (payload : StkPushCreate) (db : Session)
    → IsCoupled db
    → IsFresh db
    → IsCoupled (insert_payment (new_payment now db.next_id merchant payload) db)
unfolding audit ledger
insert-IsCoupled now merchant payload db c fresh =
    entered-IsCoupled (new_payment now db.next_id merchant payload) db _ c fresh refl refl refl refl

first-Opened :
    (now : ℕ) (start : Session) (before : Payment) (r : Result (Session × Payment))
    → IsCoupled start
    → Ensures (λ x. Held start before x.0 x.1) r
    → Opened (first_attempt now r)
unfolding first_attempt save_payment
first-Opened now start before (err e) c h = tt
first-Opened now start before (ok (db, p)) c h =
    (IsCoupled-same (save-IsCoupled c h) refl refl, h.shown)

-- What a recorded move makes of a row that is held, whatever it returns.
pub moved-Held :
    (now : ℕ) (t : PaymentStatus) (db : Session) (p : Payment) (r : Result (Session × Payment))
    → Held db p db p
    → transition_and_record now t (EventType.payment t) db p ≡ r
    → Ensures (λ x. Held db p x.0 x.1) r
moved-Held now t db p (err e) h k = tt
moved-Held now t db p (ok x) h k = Held-transition now t (EventType.payment t) h k

open-Opened :
    (now : ℕ) (merchant : MerchantAccount) (payload : StkPushCreate) (db : Session)
    → IsCoupled db
    → IsFresh db
    → Opened (open_payment now merchant payload db)
unfolding open_payment audit ledger
open-Opened now merchant payload db c fresh =
    let p : Payment = new_payment now db.next_id merchant payload in
    let inserted = insert-IsCoupled now merchant payload db c fresh in
    first-Opened now (insert_payment p db) p _ inserted (
      moved-Held now PaymentStatus.pending (insert_payment p db) p _
        (Held-self p inserted inserted.current.0) refl)

sent-IsCoupled :
    (settings : Settings) (now : ℕ) (merchant : MerchantAccount) (credential : DarajaCredential)
    (taken : Bool) (answer : StkAnswer) (db : Session) (r : Result StkWork)
    → IsCoupled db
    → Opened r
    → IsCoupled (send_opened settings now merchant credential taken answer db r).1
unfolding send_opened as_reply
sent-IsCoupled settings now merchant credential taken answer db (err e) c h = c
sent-IsCoupled settings now merchant credential taken answer db (ok w) c h =
    replied _ (submit-IsCoupled settings now merchant credential taken answer w h.0 h.1)
  where
    replied : (r : Result Payment × Session) → IsCoupled r.1 → IsCoupled (as_reply r).1
    replied (ok p, db) k = k
    replied (err e, db) k = k

answered-IsCoupled :
    (settings : Settings) (now : ℕ) (merchant : MerchantAccount) (credential : DarajaCredential)
    (raced taken : Bool) (answer : StkAnswer) (payload : StkPushCreate) (db : Session)
    (existing : Option Payment)
    → IsCoupled db
    → IsFresh db
    → IsCoupled
        (answer_push settings now merchant credential raced taken answer payload db existing).1
unfolding answer_push
answered-IsCoupled settings now merchant credential raced taken answer payload db (some p) c fresh =
    c
answered-IsCoupled settings now merchant credential raced taken answer payload db none c fresh =
    if_both (λ (r : Result StkReply × Session). IsCoupled r.1) raced c
      (sent-IsCoupled settings now merchant credential taken answer db _ c
        (open-Opened now merchant payload db c fresh))

admitted-IsCoupled :
    (settings : Settings) (now : ℕ) (raced taken : Bool) (answer : StkAnswer)
    (payload : StkPushCreate) (db : Session) (r : Result (MerchantAccount × DarajaCredential))
    → IsCoupled db
    → IsFresh db
    → IsCoupled (push_admitted settings now raced taken answer payload db r).1
unfolding push_admitted
admitted-IsCoupled settings now raced taken answer payload db (err e) c fresh = c
admitted-IsCoupled settings now raced taken answer payload db (ok (m, k)) c fresh =
    answered-IsCoupled settings now m k raced taken answer payload db _ c fresh

-- Where the next key is fresh, a creation, however it ends, keeps the ledger linked and showing the
-- status of every payment, the new one's included.
pub create-IsCoupled :
    (settings : Settings) (now : ℕ) (principal : Principal) (raced taken : Bool)
    (answer : StkAnswer) (payload : StkPushCreate) (db : Session)
    → IsCoupled db
    → IsFresh db
    → IsCoupled (create_stk_push settings now principal raced taken answer payload db).1
unfolding create_stk_push
create-IsCoupled settings now principal raced taken answer payload db c fresh =
    admitted-IsCoupled settings now raced taken answer payload db _ c fresh

begin-entry :
    (db : Session) (p : Payment) (db' : Session) (p' : Payment)
    → begin_retry_and_record db p ≡ ok (db', p')
    → (db'.ledger ≡ retry_entry p ∷ db.ledger)
      × (db'.payments ≡ db.payments)
      × (p'.id ≡ p.id)
      × (p'.status ≡ PaymentStatus.pending)
unfolding begin_retry_and_record begin_payment_retry ledger audit
begin-entry db p db' p' k = ground arith

begin-Held :
    (db : Session) (p : Payment) (r : Result (Session × Payment))
    → Held db p db p
    → begin_retry_and_record db p ≡ r
    → Ensures (λ x. Held db p x.0 x.1) r
begin-Held db p (err e) h k = tt
begin-Held db p (ok (db', p')) h k =
    let (el, ep, ei, es) = begin-entry db p db' p' k in
    Held-entry (retry_entry p) h el ep ei refl refl (sym es) (inr (refl, refl))

retry-Opened :
    (merchant : MerchantAccount) (number : ℕ) (db : Session) (p : Payment)
    (r : Result (Session × Payment))
    → IsCoupled db
    → Ensures (λ x. Held db p x.0 x.1) r
    → Opened (retry_attempt merchant number r)
unfolding retry_attempt save_payment audit
retry-Opened merchant number db p (err e) c h = tt
retry-Opened merchant number db p (ok (db', p')) c h =
    let k : Held db p db' (cleared p') = Held-edit h refl refl refl refl in
    (IsCoupled-same (save-IsCoupled c k) refl refl, k.shown)

reopen-Opened :
    (merchant : MerchantAccount) (db : Session) (p : Payment)
    → IsCoupled db
    → Held db p db p
    → Opened (reopen_payment merchant db p)
unfolding reopen_payment
reopen-Opened merchant db p c h = retry-Opened merchant _ db p _ c (begin-Held db p _ h refl)

resent-IsCoupled :
    (settings : Settings) (now : ℕ) (merchant : MerchantAccount) (credential : DarajaCredential)
    (taken : Bool) (answer : StkAnswer) (db : Session) (r : Result StkWork)
    → IsCoupled db
    → Opened r
    → IsCoupled (send_reopened settings now merchant credential taken answer db r).1
unfolding send_reopened
resent-IsCoupled settings now merchant credential taken answer db (err e) c h = c
resent-IsCoupled settings now merchant credential taken answer db (ok w) c h =
    submit-IsCoupled settings now merchant credential taken answer w h.0 h.1

retried-IsCoupled :
    (settings : Settings) (now : ℕ) (taken : Bool) (answer : StkAnswer) (db : Session) (p : Payment)
    (r : Result (MerchantAccount × DarajaCredential))
    → IsCoupled db
    → Held db p db p
    → IsCoupled (retry_admitted settings now taken answer db p r).1
unfolding retry_admitted
retried-IsCoupled settings now taken answer db p (err e) c h = c
retried-IsCoupled settings now taken answer db p (ok (m, k)) c h =
    resent-IsCoupled settings now m k taken answer db _ c (reopen-Opened m db p c h)

found_retry-IsCoupled :
    (settings : Settings) (now : ℕ) (principal : Principal) (allow_uncertain taken : Bool)
    (answer : StkAnswer) (db : Session) (test : Payment → Bool) (found : Option Payment)
    → first test db.payments ≡ found
    → IsCoupled db
    → IsCoupled (retry_found settings now principal allow_uncertain taken answer db found).1
unfolding retry_found
found_retry-IsCoupled settings now principal allow_uncertain taken answer db test none e c = c
found_retry-IsCoupled settings now principal allow_uncertain taken answer db test (some p) e c =
    retried-IsCoupled settings now taken answer db p _ c (Held-found test c e)

-- A retry, however it ends, keeps the ledger linked and showing the status of every payment.
pub retry-IsCoupled :
    (settings : Settings) (now : ℕ) (principal : Principal) (payment_id : ℕ)
    (allow_uncertain taken : Bool) (answer : StkAnswer) (db : Session)
    → IsCoupled db
    → IsCoupled (retry_payment settings now principal payment_id allow_uncertain taken answer db).1
unfolding retry_payment
retry-IsCoupled settings now principal payment_id allow_uncertain taken answer db c =
    found_retry-IsCoupled settings now principal allow_uncertain taken answer db _ _ refl c
