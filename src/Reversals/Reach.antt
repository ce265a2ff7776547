-- ===== src/Reversals/Reach.antt =====
-- Every operation on reversals as a step of the session, and the sessions that any sequence of steps,
-- in any order and by any number of users, workers and callbacks, can reach.
use lynxpay.Reversals.Callback.{receive_reversal_callback}
use lynxpay.Reversals.Delivery.{ReversalDelivery}
use lynxpay.Reversals.Query.{finish_status_query, start_status_query}
use lynxpay.Reversals.Claim.{claim_reversals}
use lynxpay.Reversals.Worker.{finish_submission, Submission, start_submission}
use lynxpay.Reversals.Request.{
  cancel_reversal, approve_reversal, request_reversal, ReversalRequestCreate,
}
use lynxpay.Reversals.Rows.{is_active_reversal}
use lynxpay.Stk.{Principal}
use lynxpay.Reversals.Life.{may_advance, Moves, IsSame, IsSound}
use lynxpay.Model.{CallbackType, ReversalRequest, Settings, Session}
use lynxpay.Prelude.{
  ℕ, suc, Bool, true, ◌≡◌, ◌≢◌, ◌≤◌, ◌⊎◌, sym, ◌∙◌, Option, List, [], ◌∷◌, All, Pairs,
  Pairs-All_with, IsKeyedBy, arith,
}

-- One commit: an endpoint, a half of a provider call, a claim, a callback, or any other part of the
-- program, which leaves the reversals as they are.
pub data Step (settings : Settings) (db : Session) : Session → Type 0 where
  request :
      (now : ℕ) (principal : Principal) (payment_id : ℕ) (payload : ReversalRequestCreate)
      → Step settings db (request_reversal now principal payment_id payload db).1
  approve :
      (now : ℕ) (principal : Principal) (reversal_id : ℕ)
      → Step settings db (approve_reversal now principal reversal_id db).1
  cancel :
      (now : ℕ) (principal : Principal) (reversal_id : ℕ)
      → Step settings db (cancel_reversal now principal reversal_id db).1
  claim :
      (now worker_id limit : ℕ)
      → Step settings db (claim_reversals settings now worker_id limit db).1
  start :
      (now worker_id reversal_id : ℕ)
      → Step settings db (start_submission now worker_id reversal_id db).1
  finish :
      (now worker_id reversal_id : ℕ) (s : Submission)
      → Step settings db (finish_submission now worker_id reversal_id s db).1
  query :
      (now : ℕ) (principal : Principal) (reversal_id : ℕ)
      → Step settings db (start_status_query now principal reversal_id db).1
  queried :
      (accepted : Bool) (principal : Principal) (reversal_id : ℕ)
      → Step settings db (finish_status_query accepted principal reversal_id db).1
  callback :
      (now merchant_id : ℕ) (kind : Option CallbackType) (delivery : ReversalDelivery)
      → Step settings db (receive_reversal_callback settings now merchant_id kind delivery db).1
  elsewhere :
      {d : Session} → d.reversals ≡ db.reversals → db.next_id ≤ d.next_id → Step settings db d

pub data Steps (settings : Settings) (db : Session) : Session → Type 0 where
  here : Steps settings db db
  later : {d e : Session} → Steps settings db d → Step settings d e → Steps settings db e

-- No two active reversals of one payment.
abbrev pub IsSingle : List ReversalRequest → Type 0
IsSingle [] = Unit
IsSingle (r ∷ rows) =
    All
      (λ q.
        is_active_reversal r.status ≡ true
        → is_active_reversal q.status ≡ true
        → q.payment_id ≢ r.payment_id)
      rows
    × IsSingle rows

-- The table of reversals: every row has a key of its own that was handed out, is sound for its
-- status, and is the only active reversal of its payment if it is active.
pub record IsReversalState (db : Session) : Type 0 where
  pub keyed : IsKeyedBy (λ r. r.id) db.reversals
  pub fresh : All (λ r. suc r.id ≤ db.next_id) db.reversals
  pub sound : All IsSound db.reversals
  pub single : IsSingle db.reversals

-- A row before and after, seen from outside: the same request, in the same status or in a next one.
abbrev pub Follows : ReversalRequest → ReversalRequest → Type 0
Follows r r' =
    IsSame r r' × IsSound r' × ((r'.status ≡ r.status) ⊎ (may_advance r.status r'.status ≡ true))

pub Pairs-Follows :
    (ps qs : List ReversalRequest) → Pairs Moves ps qs → All IsSound ps → Pairs Follows ps qs
Pairs-Follows [] [] h sound = tt
Pairs-Follows (p ∷ ps) (q ∷ qs) h sound =
    let (after, next) = h.0.1 sound.0 in ((h.0.0, after, next), Pairs-Follows ps qs h.1 sound.1)
Pairs-Follows [] (q ∷ qs) h sound = absurd h
Pairs-Follows (p ∷ ps) [] h sound = absurd h

pub active_before :
    (p q : ReversalRequest)
    → Follows p q
    → is_active_reversal q.status ≡ true
    → is_active_reversal p.status ≡ true
active_before p q h a = ground (arith, h.2, a)

pub Follows-IsSingle :
    (ps qs : List ReversalRequest) → Pairs Follows ps qs → IsSingle ps → IsSingle qs
Follows-IsSingle [] [] h single = tt
Follows-IsSingle (p ∷ ps) (q ∷ qs) h single = (
  Pairs-All_with Follows
      (λ x.
        is_active_reversal p.status ≡ true
        → is_active_reversal x.status ≡ true
        → x.payment_id ≢ p.payment_id)
      (λ x.
        is_active_reversal q.status ≡ true
        → is_active_reversal x.status ≡ true
        → x.payment_id ≢ q.payment_id)
      (λ x y f n a b e.
        n (active_before p q h.0 a) (active_before x y f b) (sym f.0.3 ∙ e ∙ h.0.0.3))
      ps qs h.1 single.0,
  Follows-IsSingle ps qs h.1 single.1,
)
Follows-IsSingle [] (q ∷ qs) h single = absurd h
Follows-IsSingle (p ∷ ps) [] h single = absurd h
