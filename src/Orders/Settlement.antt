-- ===== src/Orders/Settlement.antt =====
-- The settlement of an order, and its total.
use hospitality_os.Common.{
  Bool-cases, List, Option, ap, arith, false, inl, inr, none, refl, some, sym, true, ℕ, ◌∙◌, ◌≡◌,
}
use hospitality_os.Enums.{OrderStatus}
use hospitality_os.Orders.{get_order, is_paid, order_status, pay, post_order, update_order}
use hospitality_os.Store.{
  Action, Actor, Db, Order, bind-then, find_by-update_by, find_own, find_own-found, ok, order_keyed,
  update_by, ◌>>=◌, ◌>>◌,
}

paid_found :
    (h i : ℕ) (os : List Order) (o : Order)
    → find_own h i os ≡ some o
    → find_own h i (update_by i (order_status OrderStatus.paid) os)
      ≡ some (order_status OrderStatus.paid o)
paid_found h i os o e = ground (
  arith,
  find_own-found h i os o e,
  find_by-update_by i i (order_status OrderStatus.paid) os (λ x. refl),
)

-- what is posted leaves the orders alone
post_order-orders :
    (actor : Actor) (o : Order) (r : Option ℕ) (db : Db)
    → (post_order actor o r db).1.orders ≡ db.orders
unfolding ◌>>=◌
post_order-orders actor o none db = refl
post_order-orders actor o (some r) db = ground arith

-- an order that is paid is paid already
pay-paid :
    (actor : Actor) (i : ℕ) (db : Db) (o : Order)
    → find_own actor.hotel_id i db.orders ≡ some o
    → o.status ≡ OrderStatus.paid
    → pay actor i db ≡ (ok tt, db)
unfolding pay ◌>>=◌
pay-paid actor i db o e s = ground (arith, e, s)

-- what is done with an order that was found
get_order-found :
    {A : Type 0} (h i : ℕ) (f : Order → Action A) (db : Db) (o : Order)
    → find_own h i db.orders ≡ some o
    → (get_order h i >>= f) db ≡ f o db
unfolding ◌>>=◌
get_order-found h i f db o e = ground (arith, e)

pay-due :
    (actor : Actor) (i : ℕ) (db : Db) (o : Order)
    → find_own actor.hotel_id i db.orders ≡ some o
    → is_paid o.status ≡ false
    → pay actor i db
      ≡ (post_order actor o o.reservation_id >> update_order i (order_status OrderStatus.paid)) db
unfolding pay
pay-due actor i db o e due = get_order-found actor.hotel_id i _ db o e ∙ rw due refl

-- a call that leaves the orders alone, and then a write of one
then_update :
    (m : Action (Unit {0})) (i : ℕ) (g : Order → Order) (db : Db)
    → (m db).1.orders ≡ db.orders
    → ((m >> update_order i g) db).0 ≡ ok tt
    → ((m >> update_order i g) db).1.orders ≡ update_by i g db.orders
unfolding ◌>>=◌
then_update m i g db alone =
    bind-then (λ r. r.0 ≡ ok tt → r.1.orders ≡ update_by i g db.orders) m (λ _. update_order i g) db
      (λ a db' e returned. ap (update_by i g) (sym (ap (λ r. r.1.orders) e) ∙ alone))
      (λ x db' e returned. absurd (ground (arith, returned)))

-- the order after a payment that returned
pay-status :
    (actor : Actor) (i : ℕ) (db : Db) (o : Order)
    → find_own actor.hotel_id i db.orders ≡ some o
    → (pay actor i db).0 ≡ ok tt
    → (p : Order) × (find_own actor.hotel_id i (pay actor i db).1.orders ≡ some p)
      × (p.status ≡ OrderStatus.paid)
pay-status actor i db o e returned = elim (Bool-cases (is_paid o.status)) [
  | inl done ↦
      let same = pay-paid actor i db o e (is_paid-eq o.status done) in
      (o, rw same e, is_paid-eq o.status done)
  | inr due ↦
      let post = post_order actor o o.reservation_id in
      let step = pay-due actor i db o e due in
      (
        order_status OrderStatus.paid o,
        rw
            (
              step,
              then_update post i (order_status OrderStatus.paid) db
                  (post_order-orders actor o o.reservation_id db) (rw step at returned),
            )
            (paid_found actor.hotel_id i db.orders o e),
        refl,
      )
]
  where
    is_paid-eq : (s : OrderStatus) → is_paid s ≡ true → s ≡ OrderStatus.paid
    is_paid-eq s h = ground arith

-- An order that is paid twice in a row is posted to the folio once: after a payment of an order that
-- returns, paying it again returns, and changes nothing.
pub pay_twice :
    (actor : Actor) (i : ℕ) (db : Db) (o : Order)
    → find_own actor.hotel_id i db.orders ≡ some o
    → (pay actor i db).0 ≡ ok tt
    → pay actor i (pay actor i db).1 ≡ (ok tt, (pay actor i db).1)
pay_twice actor i db o e returned =
    let (p, found, status) = pay-status actor i db o e returned in
    pay-paid actor i (pay actor i db).1 p found status
