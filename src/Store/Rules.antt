-- ===== src/Store/Rules.antt =====
-- Rules for what holds after a call, one for each way in which a call is built. Each hands over
-- the equation of the branch that was taken.
use hospitality_os.Common.{Bool, List, Option, [], ap, false, none, refl, some, true, ◌∷◌, ◌≡◌}
use hospitality_os.Store.Database.{Db}
use hospitality_os.Store.Monad.{
  Action, Error, Result, err, for_each, gets, ok, or_throw, pure, settle, throw, throw_if,
  transaction, when, ◌>>=◌, ◌>>◌,
}

module _ {ℓ} {A B : Type 0} (P : Result B × Db → Type ℓ) where
  -- `if (!x) throw e`, and then the rest with the row
  pub or_throw-then :
      (o : Option A) (e : Error) (f : A → Action B) (db : Db)
      → P (err e, db)
      → ((a : A) → o ≡ some a → P (f a db))
      → P ((or_throw o e >>= f) db)
  unfolding ◌>>=◌
  or_throw-then none e f db missing found = missing
  or_throw-then (some a) e f db missing found = found a refl

  -- a call, and then the rest
  pub bind-then :
      (m : Action A) (f : A → Action B) (db : Db)
      → ((a : A) (db' : Db) → m db ≡ (ok a, db') → P (f a db'))
      → ((e : Error) (db' : Db) → m db ≡ (err e, db') → P (err e, db'))
      → P ((m >>= f) db)
  unfolding ◌>>=◌
  bind-then m f db returns throws = go (m db) refl
    where
      go : (r : Result A × Db) → m db ≡ r → P (elim r.0 [ ok a ↦ f a r.1 | err e ↦ throw e r.1 ])
      go (ok a, db') eq = returns a db' eq
      go (err e, db') eq = throws e db' eq

-- a call that throws, and then the rest
pub bind-err :
    {A B : Type 0} (m : Action A) (f : A → Action B) (db db' : Db) (x : Error)
    → m db ≡ (err x, db')
    → (m >>= f) db ≡ (err x, db')
unfolding ◌>>=◌
bind-err m f db db' x e = ap (λ r. elim r.0 [ ok a ↦ f a r.1 | err y ↦ throw y r.1 ]) e

-- a call that returns, and then the rest
pub bind-ok :
    {A B : Type 0} (m : Action A) (f : A → Action B) (db db' : Db) (a : A)
    → m db ≡ (ok a, db')
    → (m >>= f) db ≡ f a db'
unfolding ◌>>=◌
bind-ok m f db db' a e = ap (λ r. elim r.0 [ ok x ↦ f x r.1 | err x ↦ throw x r.1 ]) e

module _ {ℓ} {B : Type 0} (P : Result B × Db → Type ℓ) where
  -- `if (c) throw e`, and then the rest
  pub throw_if-then :
      (c : Bool) (e : Error) (m : Action B) (db : Db)
      → P (err e, db)
      → (c ≡ false → P (m db))
      → P ((throw_if c e >> m) db)
  unfolding ◌>>=◌
  throw_if-then true e m db thrown passed = thrown
  throw_if-then false e m db thrown passed = passed refl

  -- a transaction commits, or leaves the database as it was
  pub transaction-then :
      (m : Action B) (db : Db)
      → ((a : B) (db' : Db) → m db ≡ (ok a, db') → P (ok a, db'))
      → ((e : Error) → P (err e, db))
      → P (transaction m db)
  transaction-then m db commits rolls_back = go (m db) refl
    where
      go : (r : Result B × Db) → m db ≡ r → P (settle db r)
      go (ok a, db') eq = commits a db' eq
      go (err e, db') eq = rolls_back e

-- the database that a call leaves keeps a property of it
abbrev pub Keeps {ℓ} : (P : Db → Type ℓ) {A : Type 0} → Action A → Type ℓ
Keeps P m = (db : Db) → P db → P (m db).1

module _ {ℓ} (P : Db → Type ℓ) where
  pub Keeps-bind :
      {A B : Type 0} (m : Action A) (f : A → Action B)
      → Keeps P m
      → ((a : A) → Keeps P (f a))
      → Keeps P (m >>= f)
  Keeps-bind m f first rest db h =
      bind-then (λ r. P r.1) m f db (λ a db' e. rest a db' (rw (ap (λ x. x.1) e) at (first db h)))
        (λ e db' eq. rw (ap (λ x. x.1) eq) at (first db h))

  pub Keeps-for_each :
      {A : Type 0} (f : A → Action (Unit {0})) (xs : List A)
      → ((a : A) → Keeps P (f a))
      → Keeps P (for_each f xs)
  Keeps-for_each f [] each db h = h
  Keeps-for_each f (x ∷ xs) each db h =
      Keeps-bind (f x) (λ _. for_each f xs) (each x) (λ _. Keeps-for_each f xs each) db h

  pub Keeps-or_throw : {A : Type 0} (o : Option A) (e : Error) → Keeps P (or_throw o e)
  Keeps-or_throw none e db h = h
  Keeps-or_throw (some a) e db h = h

  pub Keeps-throw_if : (c : Bool) (e : Error) → Keeps P (throw_if c e)
  Keeps-throw_if true e db h = h
  Keeps-throw_if false e db h = h

  pub Keeps-gets : {A : Type 0} (f : Db → A) → Keeps P (gets f)
  Keeps-gets f db h = h

  pub Keeps-pure : {A : Type 0} (a : A) → Keeps P (pure a)
  Keeps-pure a db h = h

  -- a call that only reads
  pub Keeps-reads : {A : Type 0} (m : Action A) → ((db : Db) → (m db).1 ≡ db) → Keeps P m
  Keeps-reads m reads db h = rw (reads db) h

  pub Keeps-transaction : {A : Type 0} (m : Action A) → Keeps P m → Keeps P (transaction m)
  Keeps-transaction m keeps db h =
      transaction-then (λ r. P r.1) m db (λ a db' e. rw (ap (λ x. x.1) e) at (keeps db h)) (λ e. h)

  pub Keeps-when : (c : Bool) (m : Action (Unit {0})) → Keeps P m → Keeps P (when c m)
  Keeps-when true m keeps = keeps
  Keeps-when false m keeps = λ db h. h

-- the same from one database
module _ {ℓ} (P : Db → Type ℓ) where
  pub bind-at :
      {A B : Type 0} (m : Action A) (f : A → Action B) (db : Db)
      → P (m db).1
      → ((a : A) → Keeps P (f a))
      → P ((m >>= f) db).1
  bind-at m f db first rest =
      bind-then (λ r. P r.1) m f db (λ a db' e. rest a db' (rw (ap (λ x. x.1) e) at first))
        (λ e db' eq. rw (ap (λ x. x.1) eq) at first)

  pub transaction-at :
      {A : Type 0} (m : Action A) (db : Db) → P (m db).1 → P db → P (transaction m db).1
  transaction-at m db first h =
      transaction-then (λ r. P r.1) m db (λ a db' e. rw (ap (λ x. x.1) e) at first) (λ e. h)

pub ruleset keeping =
    (Keeps-bind, Keeps-for_each, Keeps-or_throw, Keeps-throw_if, Keeps-transaction, Keeps-when)
