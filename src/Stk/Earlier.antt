-- ===== src/Stk/Earlier.antt =====
-- The earlier payment that a creation repeats: what its two queries find.
use lynxpay.Prelude.{
  ℕ, Bool, true, false, ◌≡◌, ◌⊎◌, refl, Option, none, some, All, IsIn, All-of, All-at, first,
  first_sound, first-none, first-IsIn, truthy, eq_iff, arith, if_split, String, same_text, ap,
  some_inj,
}
use lynxpay.Model.{Payment, Session}
use lynxpay.Stk.{StkPushCreate, by_reference, by_key, by_key_if, existing_payment}

-- A payment of the merchant with the request's reference, or with its idempotency key, as a digest
-- or as it was stored before.
abbrev pub IsEarlier : StkPushCreate → ℕ → Payment → Type 0
IsEarlier payload merchant_id p =
    (p.merchant_account_id ≡ merchant_id)
    × ((p.external_reference ≡ payload.external_reference)
        ⊎ ((truthy payload.idempotency_key ≡ true)
            × ((p.idempotency_key ≡ some payload.idempotency_digest)
                ⊎ ((p.idempotency_key ≡ payload.idempotency_key)))))

by_reference-IsEarlier :
    (payload : StkPushCreate) (k : ℕ) (p : Payment)
    → by_reference payload k p ≡ true
    → IsEarlier payload k p
by_reference-IsEarlier payload k p h =
    ground (arith, h, eq_iff p.external_reference payload.external_reference)

given_key :
    (key : String) (given : Option String) → same_text (some key) given ≡ true → some key ≡ given
given_key key none h = absurd (cc)
given_key key (some t) h = ap some ((eq_iff key t).0 h)

same_given :
    (key : String) (given : Option String) → some key ≡ given → same_text (some key) given ≡ true
same_given key none h = absurd (cc)
same_given key (some t) h = (eq_iff key t).1 (some_inj h)

some_stored :
    (payload : StkPushCreate) (key : String) (k : ℕ) (p : Payment)
    → p.idempotency_key ≡ some key
    → truthy payload.idempotency_key ≡ true
    → by_key payload k p ≡ true
    → IsEarlier payload k p
some_stored payload key k p e t h =
    ground
      (arith, e, t, h, eq_iff key payload.idempotency_digest, given_key key payload.idempotency_key)

by_key-IsEarlier :
    (payload : StkPushCreate) (k : ℕ) (p : Payment) (stored : Option String)
    → p.idempotency_key ≡ stored
    → truthy payload.idempotency_key ≡ true
    → by_key payload k p ≡ true
    → IsEarlier payload k p
by_key-IsEarlier payload k p none e t h = absurd (ground (arith, e, h))
by_key-IsEarlier payload k p (some key) e t h = some_stored payload key k p e t h

-- A row that neither query finds.
reference-new :
    (payload : StkPushCreate) (k : ℕ) (p : Payment)
    → by_reference payload k p ≡ false
    → ¬ ((p.merchant_account_id ≡ k) × (p.external_reference ≡ payload.external_reference))
reference-new payload k p r h =
    absurd (ground (arith, r, h, eq_iff p.external_reference payload.external_reference))

some_new :
    (payload : StkPushCreate) (key : String) (k : ℕ) (p : Payment)
    → p.idempotency_key ≡ some key
    → by_reference payload k p ≡ false
    → by_key payload k p ≡ false
    → ¬ IsEarlier payload k p
some_new payload key k p e r h i = absurd (
    ground (
      arith,
      e,
      h,
      i,
      reference-new payload k p r,
      eq_iff key payload.idempotency_digest,
      same_given key payload.idempotency_key,
    ))

none_new :
    (payload : StkPushCreate) (k : ℕ) (p : Payment)
    → p.idempotency_key ≡ none
    → by_reference payload k p ≡ false
    → ¬ IsEarlier payload k p
none_new payload k p e r i = absurd (ground (arith, e, i, reference-new payload k p r))

neither-new :
    (payload : StkPushCreate) (k : ℕ) (p : Payment) (stored : Option String)
    → p.idempotency_key ≡ stored
    → by_reference payload k p ≡ false
    → by_key payload k p ≡ false
    → ¬ IsEarlier payload k p
neither-new payload k p none e r h = none_new payload k p e r
neither-new payload k p (some key) e r h = some_new payload key k p e r h

keyless-new :
    (payload : StkPushCreate) (k : ℕ) (p : Payment)
    → by_reference payload k p ≡ false
    → truthy payload.idempotency_key ≡ false
    → ¬ IsEarlier payload k p
keyless-new payload k p r t i = absurd (ground (arith, t, i, reference-new payload k p r))

-- What the queries find: an earlier payment of the table, or none where the table has none.
abbrev pub Describes : StkPushCreate → Session → ℕ → Option Payment → Type 0
Describes payload db k none = All (λ p. ¬ IsEarlier payload k p) db.payments
Describes payload db k (some p) = IsIn p db.payments × IsEarlier payload k p

module _ (payload : StkPushCreate) (db : Session) (k : ℕ) where
  found-Describes :
      (test : Payment → Bool) (p : Payment)
      → ((q : Payment) → test q ≡ true → IsEarlier payload k q)
      → first test db.payments ≡ some p
      → Describes payload db k (some p)
  found-Describes test p sound e =
      (first-IsIn test db.payments p e, sound p (first_sound test db.payments p e))

  key-Describes :
      (found : Option Payment)
      → first (by_reference payload k) db.payments ≡ none
      → truthy payload.idempotency_key ≡ true
      → first (by_key payload k) db.payments ≡ found
      → Describes payload db k found
  key-Describes (some p) r t e =
      found-Describes (by_key payload k) p (λ q. by_key-IsEarlier payload k q _ refl t) e
  key-Describes none r t e = All-of _ db.payments (λ p i.
      neither-new payload k p _ refl
        (All-at _ p db.payments i (first-none (by_reference payload k) db.payments r))
        (All-at _ p db.payments i (first-none (by_key payload k) db.payments e)))

  reference-Describes :
      (found : Option Payment)
      → first (by_reference payload k) db.payments ≡ found
      → Describes payload db k (by_key_if db payload k found)
  unfolding by_key_if
  reference-Describes (some p) e =
      found-Describes (by_reference payload k) p (by_reference-IsEarlier payload k) e
  reference-Describes none e =
      if_split (Describes payload db k) (truthy payload.idempotency_key)
        (λ t. key-Describes _ e t refl)
        (λ t. All-of _ db.payments (λ p i.
          keyless-new payload k p
            (All-at _ p db.payments i (first-none (by_reference payload k) db.payments e)) t))

  pub existing-Describes : Describes payload db k (existing_payment db payload k)
  unfolding existing_payment
  existing-Describes = reference-Describes _ refl
