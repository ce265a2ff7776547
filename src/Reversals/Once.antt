-- ===== src/Reversals/Once.antt =====
-- The provider is asked at most once to reverse a payment for one reversal.
use lynxpay.Reversals.Rows.{save_reversal}
use lynxpay.Reversals.Sent.{start-Sends, Sends}
use lynxpay.Reversals.Invariant.{Steps-IsReversalState, Step-IsLifecycle, IsLifecycle}
use lynxpay.Reversals.Reach.{Step, Steps, IsReversalState, Follows}
use lynxpay.Reversals.Worker.{
  submitting_since, ReversalSnapshot, is_claimed_by, start_found, start_submission,
}
use lynxpay.Model.{Session, ReversalRequest, Settings, ReversalStatus}
use lynxpay.Prelude.{
  ℕ, suc, Bool, true, false, ◌≡◌, ◌≤◌, ◌==◌, sym, ◌∙◌, refl, subst, Option, none, some, All, first,
  first_sound, none-ne-some, update-All, same_key, first-All, Pairs-All, arith,
}

-- The request has been handed to the provider, or cannot be any more.
abbrev pub is_past : ReversalStatus → Bool
is_past ReversalStatus.pending_approval = false
is_past ReversalStatus.approved = false
is_past _ = true

-- The row with a key, if it is there, is past its submission.
abbrev pub IsPast : ℕ → ReversalRequest → Type 0
IsPast k r = r.id ≡ k → is_past r.status ≡ true

IsPast-stays : (k : ℕ) (p q : ReversalRequest) → Follows p q → IsPast k p → IsPast k q
IsPast-stays k p q f h e = ground (arith, f.2, h (sym f.0.0 ∙ e))

IsPast-step :
    (k : ℕ) (db d : Session)
    → suc k ≤ db.next_id
    → IsLifecycle db d
    → All (IsPast k) db.reversals
    → (suc k ≤ d.next_id) × All (IsPast k) d.reversals
IsPast-step k db d handed (IsLifecycle.follows rows next) h =
    (omega (arith, handed, next), Pairs-All Follows (IsPast k) (IsPast-stays k) _ _ rows h)
IsPast-step k db d handed (IsLifecycle.requested r fields rows next) h = (
  omega (arith, handed, next, fields.key),
  subst (All (IsPast k)) (sym rows) (λ e. absurd (omega (arith, e, handed, fields.key)), h),
)

IsPast-Steps :
    (settings : Settings) (k : ℕ) (db d : Session)
    → IsReversalState db
    → suc k ≤ db.next_id
    → All (IsPast k) db.reversals
    → Steps settings db d
    → (suc k ≤ d.next_id) × All (IsPast k) d.reversals
IsPast-Steps settings k db _ state handed h Steps.here = (handed, h)
IsPast-Steps settings k db d state handed h (Steps.later {d = mid} steps step) =
    let before = IsPast-Steps settings k db mid state handed h steps in
    IsPast-step k mid d before.0
      (Step-IsLifecycle settings mid d (Steps-IsReversalState settings db mid state steps) step)
      before.1

past_unclaimed :
    (worker_id : ℕ) (r : ReversalRequest)
    → is_past r.status ≡ true
    → is_claimed_by worker_id r ≡ false
past_unclaimed worker_id r h = ground (arith, h)

past_refuses :
    (now worker_id k : ℕ) (db : Session)
    → All (IsPast k) db.reversals
    → (start_submission now worker_id k db).0 ≡ none
unfolding start_submission
past_refuses now worker_id k db h = refuses (first (λ r. r.id == k) db.reversals) refl
  where
    refuses :
        (found : Option ReversalRequest)
        → first (λ r. r.id == k) db.reversals ≡ found
        → (start_found now worker_id db found).0 ≡ none
    refuses none e = unfold start_found in refl
    refuses (some r) e =
        unfold start_found in
        (rw
          (past_unclaimed worker_id r (
            first-All (IsPast k) (λ r. r.id == k) db.reversals r h e
              (same_key r.id k (first_sound (λ r. r.id == k) db.reversals r e))))
          refl)

-- Where a worker gets a snapshot, the row is past its submission.
sent-IsPast :
    (now worker_id k : ℕ) (db : Session) {snap : ReversalSnapshot}
    → (start_submission now worker_id k db).0 ≡ some snap
    → All (IsPast k) (start_submission now worker_id k db).1.reversals
sent-IsPast now worker_id k db {snap} e = past_pair _ (start-Sends now worker_id k db) e
  where
    past_pair :
        (s : Option ReversalSnapshot × Session)
        → Sends now worker_id k db s
        → s.0 ≡ some snap
        → All (IsPast k) s.1.reversals
    past_pair (none, d) h e = absurd (none-ne-some e)
    past_pair (some _, d) h e =
        unfold save_reversal in
        (subst (λ (d : Session). All (IsPast k) d.reversals) (sym h.session)
          (update-All (IsPast k) (λ row. row.id == h.row.id) (λ row. submitting_since now h.row)
            (λ row hit i. refl) (λ row miss i. absurd (ground (arith, miss, i, h.key)))
            db.reversals))

-- Its key was handed out.
sent_key :
    (now worker_id k : ℕ) (db : Session) {snap : ReversalSnapshot}
    → IsReversalState db
    → (start_submission now worker_id k db).0 ≡ some snap
    → suc k ≤ (start_submission now worker_id k db).1.next_id
sent_key now worker_id k db {snap} state e = key_pair _ (start-Sends now worker_id k db) e
  where
    key_pair :
        (s : Option ReversalSnapshot × Session)
        → Sends now worker_id k db s
        → s.0 ≡ some snap
        → suc k ≤ s.1.next_id
    key_pair (none, d) h e = absurd (none-ne-some e)
    key_pair (some _, d) h e =
        unfold save_reversal in
        (subst (λ (d : Session). suc k ≤ d.next_id) (sym h.session)
          (omega (
            arith,
            h.key,
            first-All (λ r. suc r.id ≤ db.next_id) (λ r. r.id == k) db.reversals h.row state.fresh
                h.found,
          )))

-- Once a worker has got the snapshot of a reversal from a table that is in order, no worker ever gets
-- it again, whatever happens in between: the provider is asked at most once for each reversal.
pub submitted_once :
    (settings : Settings) (now now' worker_id worker_id' k : ℕ) (db d : Session)
    (snap : ReversalSnapshot)
    → IsReversalState db
    → (start_submission now worker_id k db).0 ≡ some snap
    → Steps settings (start_submission now worker_id k db).1 d
    → (start_submission now' worker_id' k d).0 ≡ none
submitted_once settings now now' worker_id worker_id' k db d snap state sent steps =
    let step : Step settings db (start_submission now worker_id k db).1 =
      Step.start now worker_id k in
    let after = Steps-IsReversalState settings db _ state (Steps.later Steps.here step) in
    past_refuses now' worker_id' k d
      (IsPast-Steps settings k _ d after (sent_key now worker_id k db state sent)
        (sent-IsPast now worker_id k db sent) steps).1
