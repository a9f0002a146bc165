-- ===== src/Service/Frame.antt =====
-- A property of the reservations and the ledger, and the calls that write neither.
use hospitality_os.Common.{arith, refl, ◌+◌, ◌≡◌, ◌≤◌}
use hospitality_os.Ledger.Books.{Books-later, IsBalanced}
use hospitality_os.Store.{Db, Keeps, fresh_id, modify}

-- the second database has the reservations, the folios and the payments of the first
abbrev pub Beside : Db → Db → Type 0
Beside db db' =
    (db'.reservations ≡ db.reservations)
    × (db'.folios ≡ db.folios)
    × (db'.line_items ≡ db.line_items)
    × (db'.payments ≡ db.payments)
    × (db.next_id ≤ db'.next_id)

-- a property that the other tables have no part in
pub record Framed (P : Db → Type 0) : Type 1 where
  pub frame : (db db' : Db) → Beside db db' → P db → P db'

module _ (P : Db → Type 0) (framed : Framed P) where
  -- a write of the other tables
  pub modify-Keeps :
      (g : Db → Db)
      → ((db : Db) → (g db).reservations ≡ db.reservations)
      → ((db : Db) → (g db).folios ≡ db.folios)
      → ((db : Db) → (g db).line_items ≡ db.line_items)
      → ((db : Db) → (g db).payments ≡ db.payments)
      → ((db : Db) → (g db).next_id ≡ db.next_id)
      → Keeps P (modify g)
  modify-Keeps g rs fs ls ps n db h =
      framed.frame db (g db) (rs db, fs db, ls db, ps db, omega (arith, n db)) h

  pub fresh_id-Keeps : Keeps P fresh_id
  fresh_id-Keeps db h =
      framed.frame db (record db { next_id = db.next_id + 1 }) (refl, refl, refl, refl, omega arith)
        h

-- the books have part in the folios, the line items and the payments alone
pub IsBalanced-Framed : Framed IsBalanced
IsBalanced-Framed = record {
  frame = λ db db' e b. rw (e.1, e.2, e.3) (Books-later b db'.next_id e.4);
}
