-- ===== src/Ledger/Posting.antt =====
-- The writes of a folio in the reservations and the payments leave the ledger balanced.
use hospitality_os.CashDrawer.{apply_cash}
use hospitality_os.Common.{List, Option, String, ap, arith, none, refl, some, ℕ, ◌+◌, ◌∷◌, ◌≡◌}
use hospitality_os.Common.Int.{+ℤ_comm, int_laws, pos, ℤ}
use hospitality_os.Enums.{LineType, PaymentMethod, ReservationStatus}
use hospitality_os.FrontDesk.{check_in, check_out}
use hospitality_os.Guests.{on_payment_recorded, reward}
use hospitality_os.Idempotency.{replay, run}
use hospitality_os.Ledger.Books.{
  Books-found, Books-later, Books-open, Books-write, IsBalanced, Settled,
}
use hospitality_os.Payments.{
  PaymentDto, apply_if_cash, base_amount, folio_of, new_payment, paid, record_inner, record_on,
  record_payment, write_payment,
}
use hospitality_os.Rates.{quote}
use hospitality_os.Reservations.Constraint.{update_reservation}
use hospitality_os.Reservations.Create.{CreateDto, GuestInput, book_room, upsert_guest}
use hospitality_os.Reservations.Modify.{charged, of_reservation, post_charge, post_to}
use hospitality_os.Store.{
  Action, Actor, Db, Error, External, Folio, Keeps, Keeps-bind, LineItem, Payment, Reservation,
  Response, Room, bind-at, bind-then, find_by, find_first, folio_keyed, keeping, modify,
  or_throw-then, update_by, ◌>>=◌,
}

pub quote-reads :
    (ext : External) (h rt check_in check_out : ℕ) (plan : Option ℕ) (db : Db)
    → (quote ext h rt check_in check_out plan db).1 ≡ db
unfolding quote ◌>>=◌
quote-reads ext h rt check_in check_out plan db = ground arith

-- a write of the reservations touches no folio
pub update_reservation-IsBalanced :
    (i : ℕ) (g : Reservation → Reservation) → Keeps IsBalanced (update_reservation i g)
unfolding ◌>>=◌
update_reservation-IsBalanced i g db b = ground arith

pub upsert_guest-IsBalanced :
    (ext : External) (h : ℕ) (g : GuestInput) → Keeps IsBalanced (upsert_guest ext h g)
unfolding upsert_guest ◌>>=◌
upsert_guest-IsBalanced ext h g db b = ground (arith, Books-later b (db.next_id + 1) (omega arith))

pub book_room-IsBalanced :
    (actor : Actor) (dto : CreateDto) (status : ReservationStatus) (hold : Option ℕ) (guest : ℕ)
    (total : ℤ) (currency : String) (room : Room)
    → Keeps IsBalanced (book_room actor dto status hold guest total currency room)
unfolding book_room ◌>>=◌
book_room-IsBalanced actor dto status hold guest total currency room db b = ground (
  arith,
  Books-open (Books-later b (db.next_id + 1) (omega arith))
      (record {
        id = db.next_id + 1;
        reservation_id = db.next_id;
        currency = currency;
        total_charges = total;
        total_paid = pos 0;
        balance = total;
      })
      (record {
        folio_id = db.next_id + 1;
        type = LineType.room;
        amount = total;
        quantity = pos 1;
        by = actor.id;
      })
      refl refl refl refl refl,
)

-- the three totals of a folio that is charged, with the line item beside them
Settled-charged :
    {f : Folio} {ls : List LineItem} {ps : List Payment} (type : LineType) (amount : ℤ)
    (by : Option ℕ)
    → Settled f ls ps
    → Settled
        (charged f amount f)
        (record { folio_id = f.id; type = type; amount = amount; quantity = pos 1; by = by } ∷ ls)
        ps
Settled-charged {f} {ls} type amount by s = record {
  charged_total = ground (arith, s, +ℤ_comm f.total_charges amount);
  paid_total = s.paid_total;
  owed = rw s.owed (omega int_laws);
}

pub post_charge-IsBalanced :
    (f : Folio) (type : LineType) (amount : ℤ) (by : Option ℕ) (db : Db)
    → find_by f.id db.folios ≡ some f
    → IsBalanced db
    → IsBalanced (post_charge f type amount by db).1
post_charge-IsBalanced f type amount by db found b =
    Books-write b f found (charged f amount) (λ x. refl) _ db.payments db.next_id (omega arith)
      (λ j ne. ground (arith, ne)) (Settled-charged type amount by)

pub post_to-IsBalanced :
    (o : Option Folio) (type : LineType) (amount : ℤ) (by : Option ℕ) (db : Db)
    → ((f : Folio) → o ≡ some f → find_by f.id db.folios ≡ some f)
    → IsBalanced db
    → IsBalanced (post_to o type amount by db).1
post_to-IsBalanced none type amount by db found b = b
post_to-IsBalanced (some f) type amount by db found b =
    post_charge-IsBalanced f type amount by db (found f refl) b

-- the totals of a folio that is paid, with the payment beside them
Settled-paid :
    {f : Folio} {ls : List LineItem} {ps : List Payment} (p : Payment) (base : ℤ)
    → p.folio_id ≡ f.id
    → p.base_amount ≡ base
    → Settled f ls ps
    → Settled (paid f base f) ls (p ∷ ps)
unfolding paid
Settled-paid {f} {ls} {ps} p base ef eb s = record {
  charged_total = s.charged_total;
  paid_total = ground (arith, s, +ℤ_comm f.total_paid base);
  owed = refl;
}

apply_if_cash-IsBalanced :
    (method : PaymentMethod) (by : Option ℕ) (h : ℕ) (base : ℤ)
    → Keeps IsBalanced (apply_if_cash method by h base)
unfolding apply_cash ◌>>=◌
apply_if_cash-IsBalanced method none h base db b = b
apply_if_cash-IsBalanced method (some u) h base db b = ground arith

write_payment-IsBalanced :
    (actor : Actor) (i : ℕ) (dto : PaymentDto) (f : Folio) (base : ℤ) (db : Db)
    → find_by f.id db.folios ≡ some f
    → IsBalanced db
    → IsBalanced (write_payment actor i dto f base db).1
unfolding write_payment ◌>>=◌
write_payment-IsBalanced actor i dto f base db found b =
    let p = new_payment db.next_id i actor dto f base in
    ground (
      arith,
      apply_if_cash-IsBalanced dto.method actor.id actor.hotel_id base
          (record db {
            payments = p ∷ db.payments;
            folios = update_by f.id (paid f base) db.folios;
            next_id = db.next_id + 1;
          })
          (Books-write b f found (paid f base) (λ x. unfold paid in refl) db.line_items
            (p ∷ db.payments) (db.next_id + 1) (omega arith) (λ j ne. ground (arith, ne))
            (Settled-paid p base refl refl)),
    )

folio_of-found :
    (h i : ℕ) (db : Db) (f : Folio)
    → folio_of h i db ≡ some f
    → find_first (of_reservation i) db.folios ≡ some f
folio_of-found h i db f e = ground arith

-- the folio of a reservation is the one under its id
pub found_folio :
    (h i : ℕ) (db : Db) (f : Folio)
    → folio_of h i db ≡ some f
    → IsBalanced db
    → find_by f.id db.folios ≡ some f
found_folio h i db f e b = Books-found b (of_reservation i) f (folio_of-found h i db f e)

write_guests-IsBalanced :
    (g : Db → Db)
    → ((db : Db) → (g db).folios ≡ db.folios)
    → ((db : Db) → (g db).line_items ≡ db.line_items)
    → ((db : Db) → (g db).payments ≡ db.payments)
    → ((db : Db) → (g db).next_id ≡ db.next_id)
    → Keeps IsBalanced (modify g)
write_guests-IsBalanced g fs ls ps n db b = rw (fs db, ls db, ps db, n db) b

reward-IsBalanced :
    (ext : External) (p h : ℕ) (amount : ℤ) (o : Option Reservation)
    → Keeps IsBalanced (reward ext p h amount o)
unfolding reward
reward-IsBalanced ext p h amount none = λ db b. b
reward-IsBalanced ext p h amount (some r) = search (keeping, write_guests-IsBalanced) depth 16

on_payment_recorded-IsBalanced :
    (ext : External) (p h i : ℕ) (amount : ℤ)
    → Keeps IsBalanced (on_payment_recorded ext p h i amount)
unfolding on_payment_recorded
on_payment_recorded-IsBalanced ext p h i amount = search (keeping, reward-IsBalanced) depth 16

record_on-IsBalanced :
    (ext : External) (actor : Actor) (i : ℕ) (dto : PaymentDto) (f : Folio) (db : Db)
    → folio_of actor.hotel_id i db ≡ some f
    → IsBalanced db
    → IsBalanced (record_on ext actor i dto f db).1
unfolding record_on
record_on-IsBalanced ext actor i dto f db e b =
    let base = base_amount ext dto f in
    bind-at IsBalanced (write_payment actor i dto f base) _ db
      (write_payment-IsBalanced actor i dto f base db (found_folio actor.hotel_id i db f e b) b)
      (λ p. search (keeping, write_guests-IsBalanced, on_payment_recorded-IsBalanced) depth 16)

record_inner-IsBalanced :
    (ext : External) (actor : Actor) (i : ℕ) (dto : PaymentDto)
    → Keeps IsBalanced (record_inner ext actor i dto)
unfolding record_inner ◌>>=◌
record_inner-IsBalanced ext actor i dto db b =
    or_throw-then (λ r. IsBalanced r.1) (folio_of actor.hotel_id i db) Error.not_found
      (record_on ext actor i dto) db b (λ f e. record_on-IsBalanced ext actor i dto f db e b)

replay-IsBalanced :
    (k : String) (operation : Action Response)
    → Keeps IsBalanced operation
    → (o : Option Response) → Keeps IsBalanced (replay k operation o)
replay-IsBalanced k operation keeps (some a) = λ db b. b
replay-IsBalanced k operation keeps none =
    Keeps-bind IsBalanced operation _ keeps
      (λ a. Keeps-bind IsBalanced _ _ (λ db b. b) (λ _ db b. b))

-- a call that is stored under an idempotency key
pub run-IsBalanced :
    (key : Option String) (operation : Action Response)
    → Keeps IsBalanced operation
    → Keeps IsBalanced (run key operation)
unfolding run
run-IsBalanced none operation keeps db b = keeps db b
run-IsBalanced (some k) operation keeps db b =
    bind-then (λ r. IsBalanced r.1) _ (replay k operation) db
      (λ o db' e. replay-IsBalanced k operation keeps o db' (rw (← ap (λ x. x.1) e) b))
      (λ x db' e. rw (← ap (λ x. x.1) e) b)

pub record_payment-IsBalanced :
    (ext : External) (actor : Actor) (i : ℕ) (dto : PaymentDto)
    → Keeps IsBalanced (record_payment ext actor i dto)
unfolding record_payment
record_payment-IsBalanced ext actor i dto =
    run-IsBalanced dto.idempotency_key _ (search (keeping, record_inner-IsBalanced))
