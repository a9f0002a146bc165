-- ===== src/Maintenance/Escalation.antt =====
-- An overdue ticket is escalated once.
use hospitality_os.Common.{
  All, List, String, [], any, ap, arith, eq_refl, filterb, refl, true, ℕ, ◌∙◌, ◌∷◌, ◌≡◌,
}
use hospitality_os.Enums.{Role}
use hospitality_os.Maintenance.{escalate_overdue, is_notice, is_overdue, notify_once}
use hospitality_os.Store.{
  Action, Db, Keeps, Keeps-for_each, Result, Ticket, bind-ok, for_each, ok, ◌>>=◌,
}

-- there is a notification of that type for that entity
abbrev pub Notified : String → ℕ → Db → Type 0
Notified type i db = any (is_notice type i) db.notifications ≡ true

module _ (h : ℕ) (role : Role) (type : String) (i : ℕ) where
  notify_once-ok :
      (db : Db) → notify_once h role type i db ≡ (ok tt, (notify_once h role type i db).1)
  unfolding ◌>>=◌
  notify_once-ok db = ground arith

  notify_once-Notified : (db : Db) → Notified type i (notify_once h role type i db).1
  unfolding ◌>>=◌
  notify_once-Notified db = ground (arith, eq_refl type)

  notify_once-Keeps : (k : ℕ) → Keeps (Notified type k) (notify_once h role type i)
  unfolding ◌>>=◌
  notify_once-Keeps k db e = ground (arith, e)

  notify_once-tickets : (db : Db) → (notify_once h role type i db).1.tickets ≡ db.tickets
  unfolding ◌>>=◌
  notify_once-tickets db = ground arith

  notify_once-again : (db : Db) → Notified type i db → notify_once h role type i db ≡ (ok tt, db)
  unfolding ◌>>=◌
  notify_once-again db e = ground (arith, e)

-- the step of the loop of `escalateOverdue`
abbrev escalate : Ticket → Action (Unit {0})
escalate t = notify_once t.hotel_id Role.manager "maintenance.overdue" t.id

abbrev escalated : Ticket → Db → Db
escalated t db = (escalate t db).1

abbrev pub IsTold : Db → Ticket → Type 0
IsTold db t = Notified "maintenance.overdue" t.id db

loop_step :
    (t : Ticket) (ts : List Ticket) (db : Db)
    → for_each escalate (t ∷ ts) db ≡ for_each escalate ts (escalated t db)
loop_step t ts db =
    bind-ok (escalate t) (λ _. for_each escalate ts) db (escalated t db) tt
      (notify_once-ok t.hotel_id Role.manager "maintenance.overdue" t.id db)

loop-ok : (ts : List Ticket) (db : Db) → (for_each escalate ts db).0 ≡ ok tt
loop-ok [] db = refl
loop-ok (t ∷ ts) db = ap (λ r. r.0) (loop_step t ts db) ∙ loop-ok ts (escalated t db)

loop-tickets : (ts : List Ticket) (db : Db) → (for_each escalate ts db).1.tickets ≡ db.tickets
loop-tickets [] db = refl
loop-tickets (t ∷ ts) db =
    ap (λ r. r.1.tickets) (loop_step t ts db)
    ∙ loop-tickets ts (escalated t db)
    ∙ notify_once-tickets t.hotel_id Role.manager "maintenance.overdue" t.id db

loop-kept :
    (t : Ticket) (ts : List Ticket) (db : Db) → IsTold db t → IsTold (for_each escalate ts db).1 t
loop-kept t ts db told =
    Keeps-for_each (λ d. IsTold d t) escalate ts
      (λ x. notify_once-Keeps x.hotel_id Role.manager "maintenance.overdue" x.id t.id) db told

same_run :
    (r r' : Result (Unit {0}) × Db) (ts : List Ticket)
    → r ≡ r'
    → All (IsTold r'.1) ts
    → All (IsTold r.1) ts
same_run r r' ts e told = rw e told

loop-IsTold : (ts : List Ticket) (db : Db) → All (IsTold (for_each escalate ts db).1) ts
loop-IsTold [] db = tt
loop-IsTold (t ∷ ts) db =
    same_run (for_each escalate (t ∷ ts) db) (for_each escalate ts (escalated t db)) (t ∷ ts)
      (loop_step t ts db)
      (
        loop-kept t ts (escalated t db)
            (notify_once-Notified t.hotel_id Role.manager "maintenance.overdue" t.id db),
        loop-IsTold ts (escalated t db),
      )

loop_again :
    (ts : List Ticket) (db : Db) → All (IsTold db) ts → for_each escalate ts db ≡ (ok tt, db)
loop_again [] db told = refl
loop_again (t ∷ ts) db told =
    bind-ok (escalate t) (λ _. for_each escalate ts) db db tt
      (notify_once-again t.hotel_id Role.manager "maintenance.overdue" t.id db told.0)
    ∙ loop_again ts db told.1

-- The escalation of the overdue tickets returns; afterwards every ticket that was overdue has its
-- notification, and a second run at the same time changes nothing: each is escalated once.
pub escalate_once :
    (now : ℕ) (db : Db)
    → let r = escalate_overdue now db in
      (r.0 ≡ ok tt)
      × All (IsTold r.1) (filterb (is_overdue now) db.tickets)
      × (escalate_overdue now r.1 ≡ (ok tt, r.1))
unfolding escalate_overdue ◌>>=◌
escalate_once now db =
    let due = filterb (is_overdue now) db.tickets in
    (
      loop-ok due db,
      loop-IsTold due db,
      rw (loop-tickets due db) (loop_again due (for_each escalate due db).1 (loop-IsTold due db)),
    )
