-- ===== src/Service/Coupling.antt =====
-- The ledger as evidence: `_require_ledger_for_payment_status_change` of app/models.py refuses a
-- change of status that no new ledger entry shows. Here is what that buys over the whole history.
use lynxpay.Prelude.{
  ℕ, Bool, true, false, ◌≡◌, refl, sym, ap, subst, ◌∙◌, ◌≢◌, ◌⊎◌, inl, inr, Option, none, some,
  List, [], ◌∷◌, All, first, first-All, update, ok, ◌==◌, if◌then◌else◌, Bool-cases, arith,
}
use lynxpay.Model.{PaymentStatus, EventType, Payment, PaymentLedgerEntry, Session}
use lynxpay.StateMachine.{may_move, transition_payment}
use lynxpay.Service.{audit, ledger, save_payment, record_transition, transition_and_record}

-- The status that the newest entry of a payment shows.
abbrev pub last_status : ℕ → List PaymentLedgerEntry → Option PaymentStatus
last_status k [] = none
last_status k (e ∷ older) = if e.payment_id == k then some e.status_to else last_status k older

-- A payment begins as `created`; later it follows the diagram or is retried.
abbrev pub IsLegal : Option PaymentStatus → PaymentStatus → EventType → Type 0
IsLegal none to event = to ≡ PaymentStatus.created
IsLegal (some from) to event =
    (may_move from to ≡ true)
    ⊎ ((event ≡ EventType.payment_retry_started) × (to ≡ PaymentStatus.pending))

-- Every entry starts where the entry before it of the same payment ended, and is legal.
abbrev pub IsLinked : List PaymentLedgerEntry → Type 0
IsLinked [] = Unit
IsLinked (e ∷ older) =
    (e.status_from ≡ last_status e.payment_id older)
    × IsLegal e.status_from e.status_to e.event_type
    × IsLinked older

-- The ledger shows the status of a payment.
abbrev pub Shows : List PaymentLedgerEntry → Payment → Type 0
Shows entries p = last_status p.id entries ≡ some p.status

-- The ledger is linked and shows the status of every payment.
pub record IsCoupled (db : Session) : Type 0 where
  pub linked : IsLinked db.ledger
  pub current : All (Shows db.ledger) db.payments

-- A payment row under way: `payment` is what the row `before` has become, the table not yet written.
pub record Held (start : Session) (before : Payment) (db : Session) (payment : Payment)
    : Type 0 where
  pub same_key : payment.id ≡ before.id
  pub table : db.payments ≡ start.payments
  pub linked : IsLinked db.ledger
  pub shown : Shows db.ledger payment
  pub others : (k : ℕ) → k ≢ before.id → last_status k db.ledger ≡ last_status k start.ledger

module _ {start : Session} {before : Payment} where
  -- Edits of other columns, and of tables that hold no payment state.
  pub Held-edit :
      {db db' : Session} {p p' : Payment}
      → Held start before db p
      → db'.ledger ≡ db.ledger
      → db'.payments ≡ db.payments
      → p'.id ≡ p.id
      → p'.status ≡ p.status
      → Held start before db' p'
  Held-edit h el ep ei es = record {
    same_key = ei ∙ h.same_key;
    table = ep ∙ h.table;
    linked = subst IsLinked (sym el) h.linked;
    shown = rw (el, ei, es) h.shown;
    others = λ k n. rw el (h.others k n);
  }

  -- One more entry, for the row's own move.
  pub Held-entry :
      {db db' : Session} {p p' : Payment} (e : PaymentLedgerEntry)
      → Held start before db p
      → db'.ledger ≡ e ∷ db.ledger
      → db'.payments ≡ db.payments
      → p'.id ≡ p.id
      → e.payment_id ≡ p.id
      → e.status_from ≡ some p.status
      → e.status_to ≡ p'.status
      → IsLegal e.status_from e.status_to e.event_type
      → Held start before db' p'
  Held-entry {db} {db'} {p} {p'} e h el ep ei ek ef et legal = record {
    same_key = ei ∙ h.same_key;
    table = ep ∙ h.table;
    linked =
        subst IsLinked (sym el)
          (ef ∙ sym h.shown ∙ ap (λ k. last_status k db.ledger) (sym ek), legal, h.linked);
    shown = rw el (ground (arith));
    others = λ k n. rw el (ground (arith, h.others k n, n, h.same_key));
  }

  pub Held-record :
      (now : ℕ) (t : PaymentStatus) (e : EventType) {db : Session} {p : Payment}
      → Held start before db p
      → may_move p.status t ≡ true
      → Held start before
          (record_transition now (record p { status = t }) p.status t e db)
          (record p { status = t })
  unfolding record_transition audit ledger
  Held-record now t e {db} {p} h legal =
      Held-entry
        (record {
          payment_id = p.id;
          event_type = e;
          status_from = some p.status;
          status_to = t;
          amount = p.amount;
          currency = p.currency;
        })
        h refl refl refl refl refl refl (inl legal)

pub transition_and_record-ok :
    (now : ℕ) (t : PaymentStatus) (e : EventType) (db : Session) (p : Payment)
    {r : Session × Payment}
    → transition_and_record now t e db p ≡ ok r
    → (may_move p.status t ≡ true)
      × (r ≡ (
        record_transition now (record p { status = t }) p.status t e db,
        record p { status = t },
      ))
unfolding transition_and_record transition_payment
transition_and_record-ok now t e db p h = elim (Bool-cases (may_move p.status t)) [
  | inl y ↦ (y, cc)
  | inr n ↦ absurd (cc)
]

module _ {start : Session} {before : Payment} where
  pub Held-transition :
      (now : ℕ) (t : PaymentStatus) (e : EventType) {db : Session} {p : Payment}
      {r : Session × Payment}
      → Held start before db p
      → transition_and_record now t e db p ≡ ok r
      → Held start before r.0 r.1
  Held-transition now t e {db} {p} h moved =
      let (legal, same) = transition_and_record-ok now t e db p moved in
      subst (λ (r : Session × Payment). Held start before r.0 r.1) (sym same)
        (Held-record now t e h legal)

save-rows :
    (old new : List PaymentLedgerEntry) (p : Payment) (rows : List Payment)
    → ((k : ℕ) → k ≢ p.id → last_status k new ≡ last_status k old)
    → Shows new p
    → All (Shows old) rows
    → All (Shows new) (update (λ row. row.id == p.id) (λ row. p) rows)
save-rows old new p [] others shown h = tt
save-rows old new p (q ∷ rows) others shown h =
    (save-row (q.id == p.id) refl, save-rows old new p rows others shown h.1)
  where
    save-row : (b : Bool) → (q.id == p.id) ≡ b → Shows new (if q.id == p.id then p else q)
    save-row true e = rw e shown
    save-row false e = rw e (others q.id (λ i. ground (arith, e, i)) ∙ h.0)

-- Saving the row keeps the coupling.
pub save-IsCoupled :
    {start : Session} {before : Payment} {db : Session} {p : Payment}
    → IsCoupled start
    → Held start before db p
    → IsCoupled (save_payment p db)
unfolding save_payment
save-IsCoupled {start} {before} {db} {p} c h = record {
  linked = h.linked;
  current = rw (h.table) (
      save-rows start.ledger db.ledger p start.payments
        (λ k n. h.others k (λ i. n (i ∙ sym h.same_key))) h.shown c.current);
}

-- The row that a query returns starts out held.
pub Held-found :
    {db : Session} (test : Payment → Bool) {p : Payment}
    → IsCoupled db
    → first test db.payments ≡ some p
    → Held db p db p
Held-found {db} test {p} c found = record {
  same_key = refl;
  table = refl;
  linked = c.linked;
  shown = first-All (Shows db.ledger) test db.payments p c.current found;
  others = λ k n. refl;
}

-- Handlers that leave payments and ledger alone keep the coupling.
pub IsCoupled-same :
    {db db' : Session}
    → IsCoupled db
    → db'.ledger ≡ db.ledger
    → db'.payments ≡ db.payments
    → IsCoupled db'
IsCoupled-same c el ep = record { linked = rw el c.linked; current = rw (el, ep) c.current }

pub ledger-save : (p : Payment) (db : Session) → (save_payment p db).ledger ≡ db.ledger
unfolding save_payment
ledger-save p db = refl
