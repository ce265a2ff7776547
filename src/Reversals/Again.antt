-- ===== src/Reversals/Again.antt =====
-- A request for a reversal that is sent twice.
use lynxpay.Model.{Payment, ReversalRequest, Session}
use lynxpay.Service.{audit}
use lynxpay.Stk.{Principal}
use lynxpay.Reversals.Request.{
  by_digest, request_inactive, request_reversal, ReversalReply, new_reversal, reversible_payment,
  request_new, request_checked, ReversalRequestCreate, insert_reversal, request_found,
}
use lynxpay.Prelude.{
  http, Error, String, text_eq, eq_iff, ◌&&◌, ℕ, Bool, true, false, ◌≡◌, ◌==◌, ap, refl, subst,
  Option, none, some, first, arith, Result, ok, err, if◌then◌else◌,
}

text_eq_self : (s : String) → text_eq s s ≡ true
text_eq_self s = ground (arith, eq_iff s s)

requested_inj :
    {a b : ReversalRequest}
    → ◌≡◌ {A = Result ReversalReply}
        (ok (ReversalReply.requested a))
        (ok (ReversalReply.requested b))
    → a ≡ b
requested_inj e = cc

replayed-ne-requested :
    (b : Bool) (a r : ReversalRequest)
    → ◌≡◌ {A = Result ReversalReply}
        (if b then ok (ReversalReply.replayed a) else err (http 409))
        (ok (ReversalReply.requested r))
    → ⊥
replayed-ne-requested true a r e = cc
replayed-ne-requested false a r e = cc

err-ne-requested :
    (e : Error) (r : ReversalRequest)
    → ◌≡◌ {A = Result ReversalReply} (err e) (ok (ReversalReply.requested r))
    → ⊥
err-ne-requested e r h = cc

-- A request whose digest finds a reversal with the same fingerprint.
replayed :
    (later : ℕ) (principal : Principal) (payload : ReversalRequestCreate) (d : Session)
    (payment : Payment) (r : ReversalRequest)
    → reversible_payment payment ≡ ok tt
    → first (by_digest payload payment) d.reversals ≡ some r
    → text_eq r.idempotency_request_hash payload.fingerprint ≡ true
    → request_found later principal payload d (some payment) ≡ (ok (ReversalReply.replayed r), d)
unfolding request_found request_checked request_new
replayed later principal payload d payment r guards found same = rw (guards, found, same) refl

-- The new row is the first that its own digest finds.
inserted-found :
    (now : ℕ) (principal : Principal) (payload : ReversalRequestCreate) (db : Session)
    (payment : Payment)
    → let r = new_reversal now db.next_id principal payload payment in
      first (by_digest payload payment) (insert_reversal r db).reversals ≡ some r
unfolding insert_reversal audit
inserted-found now principal payload db payment =
    ground (arith, text_eq_self payload.idempotency_digest)

module _ (now later : ℕ) (principal : Principal) (payment_id : ℕ) (payload : ReversalRequestCreate)
    (db : Session) (r : ReversalRequest) (d : Session) where
  abbrev mine : Payment → Bool
  mine p = p.id == payment_id && p.organization_id == principal.organization_id

  -- The first request ended in an insert, and the second finds its row.
  abbrev IsRepeatable : Result ReversalReply × Session → Type 0
  IsRepeatable s =
      s ≡ (ok (ReversalReply.requested r), d)
      → request_reversal later principal payment_id payload d ≡ (ok (ReversalReply.replayed r), d)

  reply :
      {s : Result ReversalReply × Session}
      → s ≡ (ok (ReversalReply.requested r), d)
      → s.0 ≡ ok (ReversalReply.requested r)
  reply same = ap (λ (s : Result ReversalReply × Session). s.0) same

  module _ (payment : Payment) (found : first mine db.payments ≡ some payment)
      (guards : reversible_payment payment ≡ ok tt) where
    inserted-IsRepeatable :
        let row = new_reversal now db.next_id principal payload payment in
        IsRepeatable (ok (ReversalReply.requested row), insert_reversal row db)
    unfolding request_reversal
    inserted-IsRepeatable same =
        let row = new_reversal now db.next_id principal payload payment in
        let rows : row ≡ r =
          requested_inj (ap (λ (s : Result ReversalReply × Session). s.0) same) in
        let ends : insert_reversal row db ≡ d =
          ap (λ (s : Result ReversalReply × Session). s.1) same in
        subst
          (λ x.
            request_reversal later principal payment_id payload d
            ≡ (ok (ReversalReply.replayed x), d))
          rows
          (subst
            (λ x.
              request_reversal later principal payment_id payload x
              ≡ (ok (ReversalReply.replayed row), x))
            ends
            (unfold insert_reversal audit in
              (rw found (
                replayed later principal payload _ payment row guards
                  (inserted-found now principal payload db payment)
                  (text_eq_self payload.fingerprint)))))

    inactive-IsRepeatable :
        (active : Option ReversalRequest)
        → IsRepeatable (request_inactive now principal payload payment db active)
    unfolding request_inactive
    inactive-IsRepeatable (some active) same = absurd (err-ne-requested _ r (reply same))
    inactive-IsRepeatable none same = inserted-IsRepeatable same

    new-IsRepeatable :
        (existing : Option ReversalRequest)
        → IsRepeatable (request_new now principal payload payment db existing)
    unfolding request_new
    new-IsRepeatable (some existing) same = absurd (replayed-ne-requested _ existing r (reply same))
    new-IsRepeatable none same = inactive-IsRepeatable _ same

  checked-IsRepeatable :
      (payment : Payment) (checked : Result (Unit {0}))
      → first mine db.payments ≡ some payment
      → reversible_payment payment ≡ checked
      → IsRepeatable (request_checked now principal payload payment db checked)
  unfolding request_checked
  checked-IsRepeatable payment (err e) found guards same =
      absurd (err-ne-requested e r (reply same))
  checked-IsRepeatable payment (ok _) found guards same =
      new-IsRepeatable payment found guards _ same

  found-IsRepeatable :
      (found : Option Payment)
      → first mine db.payments ≡ found
      → IsRepeatable (request_found now principal payload db found)
  unfolding request_found
  found-IsRepeatable none found same = absurd (err-ne-requested _ r (reply same))
  found-IsRepeatable (some payment) found same = checked-IsRepeatable payment _ found refl same

-- Where a request has made a reversal, the same request on the session that it left, at any later
-- time, returns that reversal as a replay and changes nothing.
pub request_again :
    (now later : ℕ) (principal : Principal) (payment_id : ℕ) (payload : ReversalRequestCreate)
    (db : Session) (r : ReversalRequest) (d : Session)
    → request_reversal now principal payment_id payload db ≡ (ok (ReversalReply.requested r), d)
    → request_reversal later principal payment_id payload d ≡ (ok (ReversalReply.replayed r), d)
request_again now later principal payment_id payload db r d h =
    found-IsRepeatable now later principal payment_id payload db r d _ refl
      (unfold request_reversal in h)
