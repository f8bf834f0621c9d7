-- ===== src/Outbox/Laws/Lease.antt =====
-- The leases that `Claim` of internal/platform/outbox/store.go takes.
use golang_template.Prelude.{
  ℕ, zero, suc, ◌+◌, ◌≤◌, String, ◌≡◌, ◌≢◌, refl, Bool, true, false, eqb, eqb_iff, List, [], ◌∷◌,
  some, take, All, arith, Bool-cases, inl, inr, ap, sym, ◌∙◌,
}
use golang_template.Errors.{Result, ok, ok-injective}
use golang_template.Storage.{Db, statement, pure, raise, ◌>>=◌}
use golang_template.Storage.Laws.{with_tx-eq-ok, statement-eq-ok, >>=-eq-ok}
use golang_template.Outbox.{Row, Record, to_seconds, has_row}
use golang_template.Outbox.Claim.{
  Moment, eligible, before, insert_sorted, candidates, claim_rows, returned_rows, limit_or_default,
  chosen_rows, claim_update, decodes, decoded_or_fail, claim,
}

module _ (P : Row → Type 0) where
  All-insert_sorted : (r : Row) (rows : List Row) → P r → All P rows → All P (insert_sorted r rows)
  unfolding insert_sorted
  All-insert_sorted r [] p ps = (p, tt)
  All-insert_sorted r (x ∷ xs) p (q, qs) = elim (Bool-cases (before r x)) [
    | inl first ↦ rw first (p, (q, qs))
    | inr later ↦ rw later (q, All-insert_sorted r xs p qs)
  ]

  All-take : (n : ℕ) (rows : List Row) → All P rows → All P (take n rows)
  All-take zero rows ps = tt
  All-take (suc n) [] ps = tt
  All-take (suc n) (r ∷ rows) (p, ps) = (p, All-take n rows ps)

  All-candidates :
      (at : Moment) (lease : ℕ) (rows : List Row)
      → All (λ r. eligible at lease r ≡ true → P r) rows
      → All P (candidates at lease rows)
  unfolding candidates
  All-candidates at lease [] ps = tt
  All-candidates at lease (r ∷ rows) (p, ps) = elim (Bool-cases (eligible at lease r)) [
    | inl due ↦
        rw due
          (All-insert_sorted r (candidates at lease rows) (p due) (All-candidates at lease rows ps))
    | inr other ↦ rw other (All-candidates at lease rows ps)
  ]

All-mono :
    {P Q : Row → Type 0} (rows : List Row) → ((r : Row) → P r → Q r) → All P rows → All Q rows
All-mono [] f ps = tt
All-mono (r ∷ rows) f (p, ps) = (f r p, All-mono rows f ps)

module _ (a : Moment) (worker : String) (chosen : List Row) where
  -- After a claim the rows of its ids are leased from the database's time on.
  abbrev Leased : Row → Type 0
  Leased r = has_row r.id chosen ≡ true → r.locked_at ≡ some (to_seconds a.db_now)

  claim_rows-Leased : (rows : List Row) → All Leased (claim_rows a worker chosen rows)
  unfolding claim_rows
  claim_rows-Leased [] = tt
  claim_rows-Leased (r ∷ rows) = elim (Bool-cases (has_row r.id chosen)) [
    | inl mine ↦ rw mine ((λ _. refl), claim_rows-Leased rows)
    | inr other ↦ rw other ((λ mine. cc), claim_rows-Leased rows)
  ]

  -- A row that is leased is not eligible while the lease lasts.
  abbrev NotMine : Row → Type 0
  NotMine r = has_row r.id chosen ≡ false

  eligible-NotMine :
      (b : Moment) (lease : ℕ) (r : Row)
      → b.app_now ≤ to_seconds a.db_now + lease
      → Leased r
      → eligible b lease r ≡ true
      → NotMine r
  unfolding eligible
  eligible-NotMine b lease r lasts leased due = elim (Bool-cases (has_row r.id chosen)) [
    | inl mine ↦ ground (arith, leased mine)
    | inr other ↦ other
  ]

  chosen-NotMine :
      (b : Moment) (lease limit : ℕ) (rows : List Row)
      → b.app_now ≤ to_seconds a.db_now + lease
      → All NotMine (chosen_rows b lease limit (claim_rows a worker chosen rows))
  chosen-NotMine b lease limit rows lasts = All-take NotMine (limit_or_default limit) _ (
      All-candidates NotMine b lease _ (
        All-mono _ (λ r leased due. eligible-NotMine b lease r lasts leased due)
          (claim_rows-Leased rows)))

  has_row-NotMine :
      (id : ℕ) (rows : List Row)
      → has_row id rows ≡ true
      → All NotMine rows
      → has_row id chosen ≡ false
  unfolding has_row
  has_row-NotMine id [] h ps = cc
  has_row-NotMine id (r ∷ rows) h (p, ps) = elim (Bool-cases (eqb r.id id)) [
    | inl same ↦ rw ((eqb_iff r.id id).0 same) at p
    | inr other ↦ has_row-NotMine id rows (rw other at h) ps
  ]

returned-ids :
    (a : Moment) (worker : String) (chosen rows : List Row)
    → All (λ x. has_row x.id chosen ≡ true) (returned_rows a worker chosen rows)
unfolding returned_rows
returned-ids a worker chosen [] = tt
returned-ids a worker chosen (r ∷ rows) = elim (Bool-cases (has_row r.id chosen)) [
  | inl mine ↦ rw mine (mine, returned-ids a worker chosen rows)
  | inr other ↦ rw other (returned-ids a worker chosen rows)
]

decoded_or_fail-eq-ok :
    (valid : String → Bool) (rs : List Record) (db : Db (List Row)) {out : List Record}
    → (decoded_or_fail valid rs db).0 ≡ ok out
    → (rs ≡ out) × ((decoded_or_fail valid rs db).1 ≡ db)
unfolding pure raise
decoded_or_fail-eq-ok valid rs db h = elim (Bool-cases (decodes valid rs)) [
  | inl good ↦ rw good ((ok-injective _ _ (rw good at h), refl))
  | inr bad ↦ cc (rw bad at h)
]

-- A claim that returns records has returned those of the rows that it chose, and leased them.
pub claim-eq-ok :
    (valid : String → Bool) (a : Moment) (worker : String) (limit lease : ℕ) (db : Db (List Row))
    {out : List Record}
    → (claim valid a worker limit lease db).0 ≡ ok out
    → (out ≡ returned_rows a worker (chosen_rows a lease limit db.tables) db.tables)
      × ((claim valid a worker limit lease db).1.tables
          ≡ claim_rows a worker (chosen_rows a lease limit db.tables) db.tables)
unfolding claim
claim-eq-ok valid a worker limit lease db h =
    let (body, left) =
      with_tx-eq-ok (statement (claim_update a worker limit lease) >>= decoded_or_fail valid) db
        h in
    let (rs, updated, rest, same) =
      >>=-eq-ok (statement (claim_update a worker limit lease)) (decoded_or_fail valid) _ body in
    let (rows, d) = statement-eq-ok (claim_update a worker limit lease) _ updated in
    let (out, kept) = decoded_or_fail-eq-ok valid rs _ rest in
    (
      sym (ok-injective _ rs rows ∙ out),
      left
          ∙ ap (λ (x : Result (List Record) × Db (List Row)). x.1.tables) same
          ∙ ap (λ (x : Db (List Row)). x.tables) kept
          ∙ ap (λ (x : Db (List Row)). x.tables) d,
    )

All-NotIn :
    (id : ℕ) (chosen : List Row) (rs : List Record)
    → has_row id chosen ≡ false
    → All (λ x. has_row x.id chosen ≡ true) rs
    → All (λ x. x.id ≢ id) rs
All-NotIn id chosen [] h ps = tt
All-NotIn id chosen (r ∷ rs) h (p, ps) = ((λ e. cc), All-NotIn id chosen rs h ps)

All-map :
    {P Q : Record → Type 0} (rs : List Record) → ((r : Record) → P r → Q r) → All P rs → All Q rs
All-map [] f ps = tt
All-map (r ∷ rs) f (p, ps) = (f r p, All-map rs f ps)

-- Two claims on one outbox, one after the other, return no row twice as long as the lease that the
-- second call asks with has not passed since the first claim: until the application's clock at the
-- second call is that lease past the second to which the database rounded the time of the first
-- claim. A row does not store the lease of the first call, which does not matter here. Workers,
-- limits and rows held by others are arbitrary.
pub claims_disjoint :
    (valid : String → Bool) (a b : Moment) (first second : String) (limit limit' lease lease' : ℕ)
    (db : Db (List Row)) {rs rs' : List Record}
    → (claim valid a first limit lease db).0 ≡ ok rs
    → (claim valid b second limit' lease' (claim valid a first limit lease db).1).0 ≡ ok rs'
    → b.app_now ≤ to_seconds a.db_now + lease'
    → All (λ y. All (λ x. x.id ≢ y.id) rs) rs'
claims_disjoint valid a b first second limit limit' lease lease' db claimed again lasts =
    let (rows, left) = claim-eq-ok valid a first limit lease db claimed in
    let (rows', _) =
      claim-eq-ok valid b second limit' lease' (claim valid a first limit lease db).1 again in
    let chosen = chosen_rows a lease limit db.tables in
    let chosen' = chosen_rows b lease' limit' (claim_rows a first chosen db.tables) in
    rw (rows, rows', left)
      (All-map _
        (λ y mine.
          All-NotIn y.id chosen _
            (has_row-NotMine a first chosen y.id chosen' mine
              (chosen-NotMine a first chosen b lease' limit' db.tables lasts))
            (returned-ids a first chosen db.tables))
        (returned-ids b second chosen' (claim_rows a first chosen db.tables)))
