-- ===== src/Reversals/Invariant.antt =====
-- The table of reversals is in order in every session that the operations can reach.
use lynxpay.Reversals.Rows.{is_active_reversal}
use lynxpay.Reversals.Submit.{finish-Advances, start-Advances, claim-Advances}
use lynxpay.Reversals.Request.{active_for}
use lynxpay.Reversals.Approve.{
  finish_query-Advances, start_query-Advances, cancel-Advances, approve-Advances,
}
use lynxpay.Reversals.Create.{request-Requested, IsRequested, Requested}
use lynxpay.Reversals.Advance.{Advances-same, Advances-refl, Advances}
use lynxpay.Reversals.Reach.{
  IsSingle, Follows-IsSingle, Pairs-Follows, Step, Steps, IsReversalState, Follows,
}
use lynxpay.Reversals.Life.{IsSound}
use lynxpay.Model.{ReversalRequest, Settings, Session}
use lynxpay.Reversals.Answer.{callback-Advances}
use lynxpay.Reversals.Submit.{finish-Advances}
use lynxpay.Prelude.{
  Pairs-All_with, suc, ◌+◌, true, false, ◌≡◌, ◌≢◌, ◌≤◌, sym, subst, ◌∷◌, All, All-map, Pairs,
  Pairs-All, IsKeyedBy, Pairs-IsKeyedBy, arith,
}

-- The abstract view of one step: rows go along the lifecycle, or one new request is put before them.
pub data IsLifecycle (db d : Session) : Type 0 where
  follows : Pairs Follows db.reversals d.reversals → db.next_id ≤ d.next_id → IsLifecycle db d
  requested :
      (r : ReversalRequest)
      → IsRequested db r
      → d.reversals ≡ r ∷ db.reversals
      → d.next_id ≡ r.id + 1
      → IsLifecycle db d

Advances-IsLifecycle :
    {db d : Session} → All IsSound db.reversals → Advances db d → IsLifecycle db d
Advances-IsLifecycle {db} {d} sound h =
    follows (Pairs-Follows db.reversals d.reversals h.rows sound) h.next

Requested-IsLifecycle : {db d : Session} → IsReversalState db → Requested db d → IsLifecycle db d
Requested-IsLifecycle {db} state Requested.unchanged =
    Advances-IsLifecycle state.sound (Advances-refl db)
Requested-IsLifecycle state (Requested.inserted r fields rows next) = requested r fields rows next

-- Each commit of an endpoint, of the worker and of a callback, from a table that is in order, either
-- moves existing reversals along the lifecycle, each by one status at most and without a change of
-- its payment, amount, binding or requester, or adds one reversal in `pending_approval`, for the
-- amount of a stored payment of its organization that is successful, has a receipt, is bound to it
-- and has no active one.
pub Step-IsLifecycle :
    (settings : Settings) (db d : Session)
    → IsReversalState db
    → Step settings db d
    → IsLifecycle db d
Step-IsLifecycle settings db _ state (Step.request now principal payment_id payload) =
    Requested-IsLifecycle state (request-Requested now principal payload db payment_id)
Step-IsLifecycle settings db _ state (Step.approve now principal reversal_id) =
    Advances-IsLifecycle state.sound (approve-Advances now principal db state.keyed reversal_id)
Step-IsLifecycle settings db _ state (Step.cancel now principal reversal_id) =
    Advances-IsLifecycle state.sound (cancel-Advances now principal db state.keyed reversal_id)
Step-IsLifecycle settings db _ state (Step.claim now worker_id limit) =
    Advances-IsLifecycle state.sound (claim-Advances settings now worker_id limit db)
Step-IsLifecycle settings db _ state (Step.start now worker_id reversal_id) =
    Advances-IsLifecycle state.sound (start-Advances now worker_id db state.keyed reversal_id)
Step-IsLifecycle settings db _ state (Step.finish now worker_id reversal_id s) =
    Advances-IsLifecycle state.sound (finish-Advances now worker_id db state.keyed reversal_id s)
Step-IsLifecycle settings db _ state (Step.query now principal reversal_id) =
    Advances-IsLifecycle state.sound (start_query-Advances now principal db state.keyed reversal_id)
Step-IsLifecycle settings db _ state (Step.queried accepted principal reversal_id) =
    Advances-IsLifecycle state.sound
      (finish_query-Advances 0 principal db state.keyed accepted reversal_id)
Step-IsLifecycle settings db _ state (Step.callback now merchant_id kind delivery) =
    Advances-IsLifecycle state.sound
      (callback-Advances settings now merchant_id kind delivery db state.keyed state.sound)
Step-IsLifecycle settings db d state (Step.elsewhere rows next) =
    Advances-IsLifecycle state.sound (Advances-same rows next)

lifecycle-IsReversalState :
    (db d : Session) → IsReversalState db → IsLifecycle db d → IsReversalState d
lifecycle-IsReversalState db d state (follows rows next) = record {
  keyed = Pairs-IsKeyedBy Follows (λ r. r.id) (λ p q f. f.0.0) _ _ rows state.keyed;
  fresh =
      Pairs-All_with Follows (λ r. suc r.id ≤ db.next_id) (λ r. suc r.id ≤ d.next_id)
        (λ p q f h. omega (arith, f.0.0, h, next)) _ _ rows state.fresh;
  sound = Pairs-All Follows IsSound (λ p q f h. f.1) _ _ rows state.sound;
  single = Follows-IsSingle _ _ rows state.single;
}
lifecycle-IsReversalState db d state (requested r fields rows next) = record {
  keyed = subst (IsKeyedBy (λ r. r.id)) (sym rows) (
    All-map (λ q. suc q.id ≤ db.next_id) (λ q. q.id ≢ r.id) db.reversals
        (λ q h e. absurd (omega (arith, h, e, fields.key))) state.fresh,
    state.keyed,
  );
  fresh = subst (All (λ q. suc q.id ≤ d.next_id)) (sym rows) (
    omega (arith, next),
    All-map (λ q. suc q.id ≤ db.next_id) (λ q. suc q.id ≤ d.next_id) db.reversals
        (λ q h. omega (arith, h, next, fields.key)) state.fresh,
  );
  sound = subst (All IsSound) (sym rows) (fields.sound, state.sound);
  single = subst IsSingle (sym rows) (
    All-map (λ q. active_for r.payment_id q ≡ false)
        (λ q.
          is_active_reversal r.status ≡ true
          → is_active_reversal q.status ≡ true
          → q.payment_id ≢ r.payment_id)
        db.reversals (λ q h a b e. absurd (ground (arith, h, b, e))) fields.alone,
    state.single,
  );
}

-- From a table that is in order, whatever happens, and in whatever order: every reversal has a key of
-- its own; none that the provider has not answered has the provider's ids; none gets past its
-- approval without an approver who is not the requester; none has more than ten status queries; and
-- no payment has two active reversals.
pub Steps-IsReversalState :
    (settings : Settings) (db d : Session)
    → IsReversalState db
    → Steps settings db d
    → IsReversalState d
Steps-IsReversalState settings db _ state Steps.here = state
Steps-IsReversalState settings db d state (Steps.later {d = mid} steps step) =
    let before : IsReversalState mid = Steps-IsReversalState settings db mid state steps in
    lifecycle-IsReversalState mid d before (Step-IsLifecycle settings mid d before step)
