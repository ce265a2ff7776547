-- ===== src/Reversals/Create.antt =====
-- What a request for a reversal adds to the table.
use lynxpay.Reversals.{payment_reversal_binding}
use lynxpay.Service.{audit}
use lynxpay.Reversals.Life.{IsSound}
use lynxpay.Reversals.Request.{
  new_reversal, reversible_payment, active_for, insert_reversal, request_new, request_checked,
  request_found, request_reversal, request_inactive, ReversalRequestCreate,
}
use lynxpay.Stk.{Principal}
use lynxpay.Model.{PaymentStatus, Purpose, Payment, ReversalStatus, ReversalRequest, Session}
use lynxpay.Prelude.{
  true, truthy, arith, Bool, List, first-none, first_sound, subst, sym, truthy, ℕ, ◌+◌, ◌%◌, ◌==◌,
  ◌&&◌, false, true, arith, Bool, ◌≡◌, refl, Option, none, some, ◌∷◌, All, first, Result, ok, err,
}

-- The payment of a reversal, in its organization.
abbrev payment_of : ReversalRequest → Payment → Bool
payment_of r p = p.id == r.payment_id && p.organization_id == r.organization_id

-- A payment of goods with its money received, in whole shillings.
abbrev IsSettledPayment : Payment → Type 0
IsSettledPayment p =
    (p.purpose ≡ Purpose.payment)
    × (p.status ≡ PaymentStatus.success)
    × (truthy p.mpesa_receipt_number ≡ true)
    × (p.amount % 100 ≡ 0)

reversible-IsSettledPayment : (p : Payment) → reversible_payment p ≡ ok tt → IsSettledPayment p
unfolding reversible_payment
reversible-IsSettledPayment p h = ground (arith, h)

-- The row of the table that an id and an organization name, named by its own columns.
first_self :
    (payment_id organization_id : ℕ) (ps : List Payment) (p : Payment)
    → first (λ q. q.id == payment_id && q.organization_id == organization_id) ps ≡ some p
    → first (λ q. q.id == p.id && q.organization_id == p.organization_id) ps ≡ some p
first_self payment_id organization_id ps p h =
    let same : (p.id ≡ payment_id) × (p.organization_id ≡ organization_id) =
      ground (arith, first_sound _ ps p h) in
    subst (λ k. first (λ q. q.id == k && q.organization_id == p.organization_id) ps ≡ some p)
      (sym same.0)
      (subst (λ o. first (λ q. q.id == payment_id && q.organization_id == o) ps ≡ some p)
        (sym same.1) h)

-- The row that a request may insert: of a stored payment that is successful, with a receipt and in
-- whole shillings, which the row is bound to and which has no active reversal.
pub record IsRequested (db : Session) (r : ReversalRequest) : Type 0 where
  pub key : r.id ≡ db.next_id
  pub status : r.status ≡ ReversalStatus.pending_approval
  pub sound : IsSound r
  pub alone : All (λ q. active_for r.payment_id q ≡ false) db.reversals
  pub payment :
      (p : Payment) × (first (payment_of r) db.payments ≡ some p)
      × (p.id ≡ r.payment_id)
      × IsSettledPayment p
      × (r.binding ≡ some (payment_reversal_binding p))
      × (r.amount ≡ p.amount)

-- Nothing is inserted, or one such row.
pub data Requested (db : Session) : Session → Type 0 where
  unchanged : Requested db db
  inserted :
      {d : Session} (r : ReversalRequest)
      → IsRequested db r
      → d.reversals ≡ r ∷ db.reversals
      → d.next_id ≡ r.id + 1
      → Requested db d

module _ (now : ℕ) (principal : Principal) (payload : ReversalRequestCreate) (db : Session) where
  module _ (payment : Payment)
      (stored : first
          (λ q. q.id == payment.id && q.organization_id == payment.organization_id)
          db.payments
        ≡ some payment) where
    inactive-Requested :
        (active : Option ReversalRequest)
        → reversible_payment payment ≡ ok tt
        → first (active_for payment.id) db.reversals ≡ active
        → Requested db (request_inactive now principal payload payment db active).1
    unfolding request_inactive insert_reversal audit
    inactive-Requested (some active) guards found = unchanged
    inactive-Requested none guards found =
        inserted (new_reversal now db.next_id principal payload payment)
          (record {
            key = refl;
            status = refl;
            sound = (refl, refl, refl);
            alone = first-none (active_for payment.id) db.reversals found;
            payment =
                (payment, stored, refl, reversible-IsSettledPayment payment guards, refl, refl);
          })
          refl refl

    new-Requested :
        (existing : Option ReversalRequest)
        → reversible_payment payment ≡ ok tt
        → Requested db (request_new now principal payload payment db existing).1
    unfolding request_new
    new-Requested (some existing) guards = unchanged
    new-Requested none guards = inactive-Requested _ guards refl

    checked-Requested :
        (checked : Result (Unit {0}))
        → reversible_payment payment ≡ checked
        → Requested db (request_checked now principal payload payment db checked).1
    unfolding request_checked
    checked-Requested (err e) guards = unchanged
    checked-Requested (ok _) guards = new-Requested _ guards

  found-Requested :
      (payment_id organization_id : ℕ) (found : Option Payment)
      → first (λ p. p.id == payment_id && p.organization_id == organization_id) db.payments ≡ found
      → Requested db (request_found now principal payload db found).1
  unfolding request_found
  found-Requested payment_id organization_id none e = unchanged
  found-Requested payment_id organization_id (some payment) e =
      checked-Requested payment (first_self payment_id organization_id db.payments payment e) _ refl

  -- A request inserts one row, or changes nothing at all.
  pub request-Requested :
      (payment_id : ℕ) → Requested db (request_reversal now principal payment_id payload db).1
  unfolding request_reversal
  request-Requested payment_id = found-Requested payment_id principal.organization_id _ refl
