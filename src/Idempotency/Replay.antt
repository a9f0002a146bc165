-- ===== src/Idempotency/Replay.antt =====
-- A replayed write has one effect.
use hospitality_os.Common.{List, Option, String, arith, eq_refl, none, refl, some, ◌≡◌}
use hospitality_os.Idempotency.{replay, run, store, stored}
use hospitality_os.Store.{Action, Db, Error, IdempotencyRow, Response, Result, err, ok, ◌>>=◌}

stored-store :
    (k : String) (a : Response) (rows : List IdempotencyRow)
    → stored k rows ≡ none
    → stored k (store k a rows) ≡ some a
unfolding stored store
stored-store k a rows h = rw (h, store) (ground (arith, eq_refl k))

module _ (k : String) where
  -- the two ways in which a call with the key returns
  pub run-ok :
      (operation : Action Response) (o : Option Response) (m : Result Response × Db) (db db' : Db)
      (a : Response)
      → stored k db.idempotency ≡ o
      → operation db ≡ m
      → (o ≡ none → stored k m.1.idempotency ≡ none)
      → replay k operation o db ≡ (ok a, db')
      → stored k db'.idempotency ≡ some a
  unfolding ◌>>=◌
  run-ok operation (some old) m db db' a e em keep h = ground arith
  run-ok operation none (ok b, d) db db' a e em keep h =
      ground (arith, stored-store k b d.idempotency, keep refl)
  run-ok operation none (err x, d) db db' a e em keep h = ground arith

-- Once a call with a key has returned, any later call with that key returns the same result and
-- leaves the database as it is, whatever its operation. The first operation itself stores nothing
-- under the key.
pub run_twice :
    (k : String) (first second : Action Response) (db db' : Db) (a : Response)
    → (stored k db.idempotency ≡ none → stored k (first db).1.idempotency ≡ none)
    → run (some k) first db ≡ (ok a, db')
    → run (some k) second db' ≡ (ok a, db')
unfolding run ◌>>=◌
run_twice k first second db db' a keep h =
    rw (run-ok k first (stored k db.idempotency) (first db) db db' a refl refl keep h) refl

-- An operation that throws stores nothing: the call throws the same, and the operation runs again
-- when the call is retried.
pub run_throws :
    (k : String) (operation : Action Response) (db db' : Db) (e : Error)
    → stored k db.idempotency ≡ none
    → operation db ≡ (err e, db')
    → run (some k) operation db ≡ (err e, db')
unfolding run ◌>>=◌
run_throws k operation db db' e fresh h = ground arith
