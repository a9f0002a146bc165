-- ===== src/Store/Monad.antt =====
-- A service call: it reads and writes the database, and returns or throws. What was written before
-- a throw stays written, unless it stands in a transaction.
use hospitality_os.Common.{
  Bool, List, Option, String, [], false, none, some, suc, true, zero, ℕ, ◌+◌, ◌∷◌,
}
use hospitality_os.Store.Database.{Db, DomainEvent}
use hospitality_os.Store.Rows.{Actor}

-- the exceptions of @nestjs/common that the services throw, the two codes of a conflict, the
-- rejection of a row by the exclusion constraint, and the codes P2002 and P2025 of the database's
-- client: a unique index is violated, a row to be updated is missing
pub data Error : Type 0 where
  not_found bad_request forbidden no_availability rate_restricted exclusion_violation : Error
  unique_violation missing_row : Error

pub data Result {ℓ} (A : Type ℓ) : Type ℓ where
  ok : A → Result A
  err : Error → Result A

abbrev pub Action : Type 0 → Type 0
Action A = Db → Result A × Db

module _ {A : Type 0} where
  abbrev pub pure : A → Action A
  pure a db = (ok a, db)

  abbrev pub throw : Error → Action A
  throw e db = (err e, db)

  abbrev pub gets : (Db → A) → Action A
  gets f db = (ok (f db), db)

  -- `if (!x) throw e`, for a row that was looked up
  abbrev pub or_throw : Option A → Error → Action A
  or_throw none e = throw e
  or_throw (some a) _ = pure a

  abbrev pub settle : Db → Result A × Db → Result A × Db
  settle db (ok a, db') = (ok a, db')
  settle db (err e, db') = (err e, db)

  -- `$transaction`: a throw takes back what was written
  abbrev pub transaction : Action A → Action A
  transaction m db = settle db (m db)

infixl 5 ◌>>=◌ ◌>>◌
-- The first call, and then the rest with its result. It is shut, so that a rule for it reads a call
-- as it is written; a proof that runs a call names it on its `unfolding` line.
unfoldable pub ◌>>=◌ : {A B : Type 0} → Action A → (A → Action B) → Action B
◌>>=◌ m f db = let (r, db') = m db in elim r [ ok a ↦ f a db' | err e ↦ throw e db' ]

abbrev pub ◌>>◌ : {A B : Type 0} → Action A → Action B → Action B
m >> k = m >>= λ _. k

-- `if (c) throw e`
abbrev pub throw_if : Bool → Error → Action (Unit {0})
throw_if true e = throw e
throw_if false e = pure tt

-- `if (c) await m`
abbrev pub when : Bool → Action (Unit {0}) → Action (Unit {0})
when true m = m
when false m = pure tt

abbrev pub modify : (Db → Db) → Action (Unit {0})
modify f db = (ok tt, f db)

-- the identifier of the row that is created next
abbrev pub fresh_id : Action ℕ
fresh_id db = (ok db.next_id, record db { next_id = db.next_id + 1 })

-- `for (const x of xs) await f(x)`: a throw ends the loop
abbrev pub for_each : {A : Type 0} → (A → Action (Unit {0})) → List A → Action (Unit {0})
for_each f [] = pure tt
for_each f (x ∷ xs) = f x >> for_each f xs

-- a duplicate key goes on to the next attempt, anything else is passed on
abbrev pub on_duplicate : {A : Type 0} → (Db → Result A × Db) → Result A × Db → Result A × Db
on_duplicate next (ok a, db) = (ok a, db)
on_duplicate next (err Error.unique_violation, db) = next db
on_duplicate next (err e, db) = (err e, db)

-- `for (let attempt = k; ; attempt++) try { … break } catch (e) { if (dup && attempt < last) continue;
-- throw e }`, with the number of attempts that are left after this one
unfoldable pub retry : {A : Type 0} → (left k : ℕ) → (ℕ → Action A) → Action A
retry zero k f = f k
retry (suc left) k f = let next = retry left (suc k) f in λ db. on_duplicate next (f k db)

-- `AuditService.record`
abbrev pub record_audit : Actor → String → String → ℕ → Action (Unit {0})
record_audit actor action entity entity_id = modify λ db. record db {
  audits =
      record {
        hotel_id = actor.hotel_id;
        actor_id = actor.id;
        actor_type = actor.type;
        action = action;
        entity = entity;
        entity_id = entity_id;
      }
      ∷ db.audits;
}

-- the durable half of `EventBusService.emit`: the row of the outbox
abbrev pub emit : DomainEvent → Action (Unit {0})
emit e = modify λ db. record db { outbox = e ∷ db.outbox }
