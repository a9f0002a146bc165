-- ===== src/Store/Attempts.antt =====
-- What a loop of attempts leaves, where a duplicate key makes the next attempt.
use hospitality_os.Common.{arith, inl, inr, suc, zero, ℕ, ◌≡◌, ◌⊎◌}
use hospitality_os.Store.Database.{Db}
use hospitality_os.Store.Monad.{Action, Error, Result, err, ok, on_duplicate, retry}
use hospitality_os.Store.Rules.{Keeps}

-- what each attempt keeps
pub retry-Keeps :
    {A : Type 0} (P : Db → Type 0) (f : ℕ → Action A)
    → ((k : ℕ) → Keeps P (f k))
    → (left k : ℕ) → Keeps P (retry left k f)
unfolding retry
retry-Keeps P f each zero k db h = each k db h
retry-Keeps {A = A} P f each (suc left) k db h =
    again (λ db1 h1. retry-Keeps P f each left (suc k) db1 h1) (f k db) (each k db h)
  where
    again :
        Keeps P (retry left (suc k) f)
        → (r : Result A × Db) → P r.1
        → P (on_duplicate (retry left (suc k) f) r).1
    again next (ok a, db1) h1 = h1
    again next (err Error.unique_violation, db1) h1 = next db1 h1
    again next (err Error.not_found, db1) h1 = h1
    again next (err Error.bad_request, db1) h1 = h1
    again next (err Error.forbidden, db1) h1 = h1
    again next (err Error.no_availability, db1) h1 = h1
    again next (err Error.rate_restricted, db1) h1 = h1
    again next (err Error.exclusion_violation, db1) h1 = h1
    again next (err Error.missing_row, db1) h1 = h1

-- each attempt leaves the first property, or returns with the second
pub retry-leaves :
    {A : Type 0} (Pre Post : Db → Type 0) (f : ℕ → Action A)
    → ((db : Db) → Pre db → Post db)
    → ((k : ℕ) (db : Db)
        → Pre db
        → Pre (f k db).1 ⊎ (Post (f k db).1 × ((a : A) × ((f k db).0 ≡ ok a))))
    → (left k : ℕ) (db : Db) → Pre db
    → Post (retry left k f db).1
unfolding retry
retry-leaves Pre Post f weaker each zero k db h = elim (each k db h) [
  | inl pre ↦ weaker (f k db).1 pre
  | inr (post, _) ↦ post
]
retry-leaves {A = A} Pre Post f weaker each (suc left) k db h =
    again (λ db1 h1. retry-leaves Pre Post f weaker each left (suc k) db1 h1) (f k db) (each k db h)
  where
    again :
        ((db1 : Db) → Pre db1 → Post (retry left (suc k) f db1).1)
        → (r : Result A × Db) → Pre r.1 ⊎ (Post r.1 × ((a : A) × (r.0 ≡ ok a)))
        → Post (on_duplicate (retry left (suc k) f) r).1
    again next (ok a, db1) h1 = elim h1 [ inl pre ↦ weaker db1 pre | inr (post, _) ↦ post ]
    again next (err Error.unique_violation, db1) h1 = elim h1 [
      | inl pre ↦ next db1 pre
      | inr (post, (a, e)) ↦ absurd (ground (arith, e))
    ]
    again next (err Error.not_found, db1) h1 = elim h1 [
      | inl pre ↦ weaker db1 pre
      | inr (post, _) ↦ post
    ]
    again next (err Error.bad_request, db1) h1 = elim h1 [
      | inl pre ↦ weaker db1 pre
      | inr (post, _) ↦ post
    ]
    again next (err Error.forbidden, db1) h1 = elim h1 [
      | inl pre ↦ weaker db1 pre
      | inr (post, _) ↦ post
    ]
    again next (err Error.no_availability, db1) h1 = elim h1 [
      | inl pre ↦ weaker db1 pre
      | inr (post, _) ↦ post
    ]
    again next (err Error.rate_restricted, db1) h1 = elim h1 [
      | inl pre ↦ weaker db1 pre
      | inr (post, _) ↦ post
    ]
    again next (err Error.exclusion_violation, db1) h1 = elim h1 [
      | inl pre ↦ weaker db1 pre
      | inr (post, _) ↦ post
    ]
    again next (err Error.missing_row, db1) h1 = elim h1 [
      | inl pre ↦ weaker db1 pre
      | inr (post, _) ↦ post
    ]
