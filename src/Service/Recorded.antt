-- ===== src/Service/Recorded.antt =====
-- One recorded move of a payment row, or none: the shape that every handler's work has.
use lynxpay.Prelude.{true, ◌≡◌, refl, ◌⊎◌, inl, inr, some, ◌∷◌, ok, arith}
use lynxpay.Model.{PaymentStatus, EventType, Payment, PaymentLedgerEntry, Session}
use lynxpay.StateMachine.{may_move, transition_payment}
use lynxpay.Service.{audit, ledger, record_transition, transition_and_record}
use lynxpay.Service.Coupling.{Held, Held-edit, Held-entry}

-- The ledger entry of a move between two states of the row.
abbrev pub move_entry : Payment → Payment → PaymentLedgerEntry
move_entry p p' = record {
  payment_id = p.id;
  event_type = EventType.payment p'.status;
  status_from = some p.status;
  status_to = p'.status;
  amount = p.amount;
  currency = p.currency;
}

-- The row kept its status and the ledger its entries, or the row made a legal move and the ledger
-- took its entry.
abbrev pub Recorded : Session → Payment → Session → Payment → Type 0
Recorded db p db' p' =
    (db'.payments ≡ db.payments)
    × (p'.id ≡ p.id)
    × (((db'.ledger ≡ db.ledger) × (p'.status ≡ p.status))
        ⊎ ((may_move p.status p'.status ≡ true) × (db'.ledger ≡ move_entry p p' ∷ db.ledger)))

pub Held-Recorded :
    {start : Session} {before : Payment} {db db' : Session} {p p' : Payment}
    → Held start before db p
    → Recorded db p db' p'
    → Held start before db' p'
Held-Recorded h (ep, ei, inl (el, es)) = Held-edit h el ep ei es
Held-Recorded {p} {p'} h (ep, ei, inr (legal, el)) =
    Held-entry (move_entry p p') h el ep ei refl refl refl (inl legal)

-- `transition_and_record` is such a move.
pub transition-Recorded :
    (now : _) (t : PaymentStatus) (db db' : Session) (p p' : Payment)
    → transition_and_record now t (EventType.payment t) db p ≡ ok (db', p')
    → Recorded db p db' p'
unfolding transition_and_record transition_payment record_transition ledger audit
transition-Recorded now t db db' p p' h = ground arith
