-- ===== src/Ledger/Change/Row.antt =====
-- The life of one row of src/traceguard/ledger.py. A reservation is pending; the executor finishes
-- it; an operator settles what is uncertain; a review decides on a stored result once; an accepted
-- result can go back to review.
use trace_guard.Common.{
  ◌≤◌, String, ◌≡◌, true, false, ◌&&◌, not, Option, List, [], ◌∷◌, ◌++◌, map, arith, is_some, any,
  All,
}
use trace_guard.Ledger.Rows.{
  Status, Disposition, review_required, is_pending, is_succeeded, is_in_flight, is_accepted,
  is_pending_review, is_withheld, Scope, Row, Request, bound, blocks, repeats, charge, reservation,
}
use trace_guard.Ledger.Reserve.{over_budget}
use trace_guard.Ledger.Settle.{settle, dispose, can_finish, is_definitive, unfounded}

pub data Lifecycle (r r' : Row) : Type 0 where
  unchanged : r' ≡ r → Lifecycle r r'
  finished :
      (s : Status) (result : Option String) (d : Disposition)
      → is_pending r.status ≡ true
      → can_finish s ≡ true
      → unfounded s result d ≡ false
      → r' ≡ settle s result d r
      → Lifecycle r r'
  reconciled :
      (s : Status) (result : Option String) (d : Disposition)
      → is_in_flight r.status ≡ true
      → is_definitive s ≡ true
      → unfounded s result d ≡ false
      → r' ≡ settle s result d r
      → Lifecycle r r'
  reviewed :
      (d : Disposition)
      → is_succeeded r.status ≡ true
      → is_pending_review r.disposition ≡ true
      → is_some r.result ≡ true
      → r' ≡ dispose d r
      → Lifecycle r r'
  demoted :
      is_succeeded r.status ≡ true
      → is_accepted r.disposition ≡ true
      → r' ≡ dispose review_required r
      → Lifecycle r r'

-- What an operation may do to the table: every row lives on, or one reservation is added whose
-- nonce and key are free, whose task has nothing unresolved, and which its budget covers. `Asked`
-- says which reservations were asked for.
pub data Change (Asked : Request → Type 0) (rows rows' : List Row) : Type 0 where
  revise :
      (f : Row → Row)
      → All (λ r. Lifecycle r (f r)) rows
      → rows' ≡ map f rows
      → Change Asked rows rows'
  insert :
      (q : Request)
      → Asked q
      → any (bound q.nonce q.scope q.idempotency_key) rows ≡ false
      → any (blocks q.scope) rows ≡ false
      → (not q.repeatable && any (repeats q.scope q.effect_digest) rows) ≡ false
      → over_budget q rows ≡ false
      → rows' ≡ rows ++ reservation q ∷ []
      → Change Asked rows rows'

-- What a row keeps for ever.
pub record SameEffect (r r' : Row) : Type 0 where
  pub nonce : r'.nonce ≡ r.nonce
  pub scope : r'.scope ≡ r.scope
  pub idempotency_key : r'.idempotency_key ≡ r.idempotency_key
  pub digest : r'.digest ≡ r.digest
  pub effect_digest : r'.effect_digest ≡ r.effect_digest
  pub amount : r'.amount ≡ r.amount
  pub result_policy : r'.result_policy ≡ r.result_policy

-- An accepted result belongs to an execution that succeeded, and was stored.
abbrev pub IsHonest : Row → Type 0
IsHonest r = unfounded r.status r.result r.disposition ≡ false

module _ {r r' : Row} where
  pub Lifecycle-SameEffect : Lifecycle r r' → SameEffect r r'
  Lifecycle-SameEffect (unchanged e) = ground arith
  Lifecycle-SameEffect (finished s result d p c u e) = ground arith
  Lifecycle-SameEffect (reconciled s result d p c u e) = ground arith
  Lifecycle-SameEffect (reviewed d p c u e) = ground arith
  Lifecycle-SameEffect (demoted p c e) = ground arith

  -- No row comes back into flight.
  pub Lifecycle-in_flight :
      Lifecycle r r' → is_in_flight r.status ≡ false → is_in_flight r'.status ≡ false
  Lifecycle-in_flight (unchanged e) h = ground arith
  Lifecycle-in_flight (finished s result d p c u e) h = ground arith
  Lifecycle-in_flight (reconciled s result d p c u e) h = ground arith
  Lifecycle-in_flight (reviewed d p c u e) h = ground arith
  Lifecycle-in_flight (demoted p c e) h = ground arith

  pub Lifecycle-IsHonest : Lifecycle r r' → IsHonest r → IsHonest r'
  Lifecycle-IsHonest (unchanged e) h = ground arith
  Lifecycle-IsHonest (finished s result d p c u e) h = ground arith
  Lifecycle-IsHonest (reconciled s result d p c u e) h = ground arith
  Lifecycle-IsHonest (reviewed d p c u e) h = ground arith
  Lifecycle-IsHonest (demoted p c e) h = ground arith

  -- A row never costs more than it did.
  pub charge-Lifecycle : (scope : Scope) → Lifecycle r r' → charge scope r' ≤ charge scope r
  unfolding charge
  charge-Lifecycle scope (unchanged e) = ground arith
  charge-Lifecycle scope (finished s result d p c u e) = ground arith
  charge-Lifecycle scope (reconciled s result d p c u e) = ground arith
  charge-Lifecycle scope (reviewed d p c u e) = ground arith
  charge-Lifecycle scope (demoted p c e) = ground arith

  -- A succeeded execution stays so with its result, and a withheld result stays withheld.
  pub Lifecycle-withheld :
      Lifecycle r r'
      → (is_succeeded r.status && is_withheld r.disposition) ≡ true
      → (is_succeeded r'.status && is_withheld r'.disposition) ≡ true
  Lifecycle-withheld (unchanged e) h = ground arith
  Lifecycle-withheld (finished s result d p c u e) h = ground arith
  Lifecycle-withheld (reconciled s result d p c u e) h = ground arith
  Lifecycle-withheld (reviewed d p c u e) h = ground arith
  Lifecycle-withheld (demoted p c e) h = ground arith

  pub Lifecycle-succeeded :
      Lifecycle r r'
      → is_succeeded r.status ≡ true
      → (is_succeeded r'.status ≡ true) × (r'.result ≡ r.result)
  Lifecycle-succeeded (unchanged e) h = ground arith
  Lifecycle-succeeded (finished s result d p c u e) h = ground arith
  Lifecycle-succeeded (reconciled s result d p c u e) h = ground arith
  Lifecycle-succeeded (reviewed d p c u e) h = ground arith
  Lifecycle-succeeded (demoted p c e) h = ground arith
