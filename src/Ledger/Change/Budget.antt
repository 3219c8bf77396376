-- ===== src/Ledger/Change/Budget.antt =====
-- What the table of src/traceguard/ledger.py charges to a task, under the changes of the
-- specification.
use trace_guard.Common.{
  ℕ, ◌+◌, ◌≤◌, ◌≡◌, refl, true, false, some, List, [], ◌∷◌, ◌++◌, map, arith, All, Bool-cases, inl,
  inr, eq_iff,
}
use trace_guard.Ledger.Rows.{Scope, Row, Request, same_task, charge, spent, reservation}
use trace_guard.Ledger.Reserve.{over_budget}
use trace_guard.Ledger.Change.Row.{Lifecycle, Change, revise, insert, charge-Lifecycle}

spent-map :
    (f : Row → Row) (scope : Scope) (rows : List Row)
    → All (λ r. Lifecycle r (f r)) rows
    → spent scope (map f rows) ≤ spent scope rows
spent-map f scope [] ls = omega arith
spent-map f scope (r ∷ rows) ls =
    omega (arith, charge-Lifecycle scope ls.0, spent-map f scope rows ls.1)

spent-append :
    (scope : Scope) (rows : List Row) (r : Row)
    → spent scope (rows ++ r ∷ []) ≡ spent scope rows + charge scope r
spent-append scope [] r = omega arith
spent-append scope (x ∷ rows) r = omega (arith, spent-append scope rows r)

-- Two scopes of one task see the same charges.
charge_congr : (a b : Scope) (r : Row) → same_task a b ≡ true → charge a r ≡ charge b r
unfolding charge same_task
charge_congr a b r h = ground (arith, eq_iff a.tenant b.tenant, eq_iff a.task b.task)

spent_congr : (a b : Scope) (rows : List Row) → same_task a b ≡ true → spent a rows ≡ spent b rows
spent_congr a b [] h = refl
spent_congr a b (r ∷ rows) h = omega (arith, charge_congr a b r h, spent_congr a b rows h)

charge-reservation : (scope : Scope) (q : Request) → charge scope (reservation q) ≤ q.amount
unfolding charge
charge-reservation scope q = ground arith

charge-reservation_other :
    (scope : Scope) (q : Request)
    → same_task q.scope scope ≡ false
    → charge scope (reservation q) ≡ 0
unfolding charge
charge-reservation_other scope q h = ground arith

-- A budget for a task: a request for the task names a limit that is at most the budget.
abbrev pub Respects : ℕ → Scope → Request → Type 0
Respects budget scope q =
    same_task q.scope scope ≡ true → (limit : ℕ) × (q.budget_limit ≡ some limit) × (limit ≤ budget)

within_limit :
    (q : Request) (rows : List Row) (limit : ℕ)
    → q.budget_limit ≡ some limit
    → over_budget q rows ≡ false
    → spent q.scope rows + q.amount ≤ limit
within_limit q rows limit e h = ground arith

spent-insert :
    (budget : ℕ) (scope : Scope) (q : Request) (rows : List Row)
    → Respects budget scope q
    → over_budget q rows ≡ false
    → spent scope rows ≤ budget
    → spent scope rows + charge scope (reservation q) ≤ budget
spent-insert budget scope q rows ok h s = elim (Bool-cases (same_task q.scope scope)) [
  | inl t ↦
      let (limit, e, fits) = ok t in
      omega (
        arith,
        within_limit q rows limit e h,
        spent_congr q.scope scope rows t,
        charge-reservation scope q,
      )
  | inr f ↦ omega (arith, charge-reservation_other scope q f)
]

-- A change keeps a task within its budget, if every reservation that was asked for respects it.
pub spent-Change :
    {Asked : Request → Type 0} (budget : ℕ) (scope : Scope) (rows rows' : List Row)
    → ((q : Request) → Asked q → Respects budget scope q)
    → Change Asked rows rows'
    → spent scope rows ≤ budget
    → spent scope rows' ≤ budget
spent-Change budget scope rows rows' respected (revise f ls e) h =
    rw e (omega (arith, spent-map f scope rows ls))
spent-Change budget scope rows rows' respected (insert q asked free clear fresh covered e) h =
    rw (e, spent-append) (spent-insert budget scope q rows (respected q asked) covered h)
