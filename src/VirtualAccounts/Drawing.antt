-- ===== src/VirtualAccounts/Drawing.antt =====
-- The number of an account: the loop ends, and its number is free where a draw was.
use hospitality_os.Common.{
  Bool, Bool-cases, List, String, any, arith, false, inl, inr, none, not, refl, some, suc, true,
  zero, ℕ, ◌+◌, ◌||◌, ◌∙◌, ◌∷◌, ◌≡◌, ◌⊎◌,
}
use hospitality_os.Reservations.Modify.{of_reservation}
use hospitality_os.Store.{
  Actor, Db, Error, Reservation, VirtualAccount, bind-err, bind-ok, err, find_first, find_own, ok,
  pure, reservation_keyed, ◌>>=◌,
}
use hospitality_os.VirtualAccounts.{
  DvaDto, account_row, create_account, draw_number, has_account, insert_account, is_usable,
  open_account,
}

-- one of the draws is free
unfoldable pub some_free : (hotel_id : ℕ) → List VirtualAccount → (ℕ → ℕ) → (left k : ℕ) → Bool
some_free h accounts n zero k = false
some_free h accounts n (suc left) k =
    not (any (has_account h (n k)) accounts) || some_free h accounts n left (suc k)

draw_number-free :
    (h : ℕ) (accounts : List VirtualAccount) (n : ℕ → ℕ) (left k last : ℕ)
    → some_free h accounts n left k ≡ true
    → any (has_account h (draw_number h accounts n left k last)) accounts ≡ false
unfolding draw_number some_free
draw_number-free h accounts n zero k last e = absurd (ground (arith, e))
draw_number-free h accounts n (suc left) k last e =
    elim (Bool-cases (any (has_account h (n k)) accounts)) [
      | inl taken ↦ rw taken (draw_number-free h accounts n left (suc k) (n k) (rw taken at e))
      | inr free ↦ rw (free, free) refl
    ]

draw_number-taken :
    (h : ℕ) (accounts : List VirtualAccount) (n : ℕ → ℕ) (left k last : ℕ)
    → some_free h accounts n left k ≡ false
    → any (has_account h last) accounts ≡ true
    → any (has_account h (draw_number h accounts n left k last)) accounts ≡ true
unfolding draw_number some_free
draw_number-taken h accounts n zero k last e l = l
draw_number-taken h accounts n (suc left) k last e l =
    elim (Bool-cases (any (has_account h (n k)) accounts)) [
      | inl taken ↦
          rw taken (draw_number-taken h accounts n left (suc k) (n k) (rw taken at e) taken)
      | inr free ↦ absurd (ground (arith, rw free at e))
    ]

-- no draw is free
draw_number-busy :
    (h : ℕ) (accounts : List VirtualAccount) (n : ℕ → ℕ) (left k last : ℕ)
    → some_free h accounts n (suc left) k ≡ false
    → any (has_account h (draw_number h accounts n (suc left) k last)) accounts ≡ true
unfolding draw_number some_free
draw_number-busy h accounts n left k last e =
    elim (Bool-cases (any (has_account h (n k)) accounts)) [
      | inl taken ↦
          rw taken (draw_number-taken h accounts n left (suc k) (n k) (rw taken at e) taken)
      | inr free ↦ absurd (ground (arith, rw free at e))
    ]

insert_account-free :
    (a : VirtualAccount) (db : Db)
    → any (has_account a.hotel_id a.account_number) db.virtual_accounts ≡ false
    → insert_account a db ≡ (ok tt, record db { virtual_accounts = a ∷ db.virtual_accounts })
unfolding ◌>>=◌
insert_account-free a db free = ground (arith, free)

insert_account-taken :
    (a : VirtualAccount) (db : Db)
    → any (has_account a.hotel_id a.account_number) db.virtual_accounts ≡ true
    → insert_account a db ≡ (err Error.unique_violation, db)
unfolding ◌>>=◌
insert_account-taken a db taken = ground (arith, taken)

-- the row that is written, under the number that is drawn
abbrev pub drawn :
    (now : ℕ) → (n : ℕ → ℕ) → String → Actor → DvaDto → Db → Reservation → VirtualAccount
drawn now n reference actor dto db r =
    account_row db.next_id now reference actor r dto
      (draw_number actor.hotel_id db.virtual_accounts n 10 0 0)
      (find_first (of_reservation r.id) db.folios)

module _ (now : ℕ) (n : ℕ → ℕ) (reference : String) (actor : Actor) (i : ℕ) (dto : DvaDto) (db : Db)
    (r : Reservation) (found : find_own actor.hotel_id i db.reservations ≡ some r)
    (none_usable : find_first (is_usable now actor.hotel_id i) db.virtual_accounts ≡ none) where
  create_account-insert_account : create_account now n reference actor i dto db ≡ (
      let a = drawn now n reference actor dto db r in
      (insert_account a >>= λ _. pure a) (record db { next_id = db.next_id + 1 }))
  unfolding create_account open_account ◌>>=◌
  create_account-insert_account = rw (found, none_usable) refl

-- A reservation of the hotel that has no usable account gets one: where one of the ten draws is free,
-- the call adds the row and returns it, under a number that no account of the hotel had; where none
-- is, the insert is refused, and no account is written.
pub create_account_lem :
    (now : ℕ) (n : ℕ → ℕ) (reference : String) (actor : Actor) (i : ℕ) (dto : DvaDto) (db : Db)
    (r : Reservation)
    → find_own actor.hotel_id i db.reservations ≡ some r
    → find_first (is_usable now actor.hotel_id i) db.virtual_accounts ≡ none
    → let a = drawn now n reference actor dto db r in
      let counted = record db { next_id = db.next_id + 1 } in
      let free = some_free actor.hotel_id db.virtual_accounts n 10 0 in
      ((free ≡ true)
        × (any (has_account actor.hotel_id a.account_number) db.virtual_accounts ≡ false)
        × (create_account now n reference actor i dto db
            ≡ (ok a, record counted { virtual_accounts = a ∷ db.virtual_accounts })))
      ⊎ ((free ≡ false)
          × (create_account now n reference actor i dto db ≡ (err Error.unique_violation, counted)))
create_account_lem now n reference actor i dto db r found alone =
    let h = actor.hotel_id in
    let a = drawn now n reference actor dto db r in
    let counted = record db { next_id = db.next_id + 1 } in
    let call = create_account-insert_account now n reference actor i dto db r found alone in
    elim (Bool-cases (some_free h db.virtual_accounts n 10 0)) [
      | inl free ↦
          let vacant = draw_number-free h db.virtual_accounts n 10 0 0 free in
          inl (
            free,
            vacant,
            call
                ∙ bind-ok (insert_account a) (λ _. pure a) counted _ tt
                    (insert_account-free a counted vacant),
          )
      | inr busy ↦
          let taken = draw_number-busy h db.virtual_accounts n 9 0 0 busy in
          inr (
            busy,
            call
                ∙ bind-err (insert_account a) (λ _. pure a) counted counted Error.unique_violation
                    (insert_account-taken a counted taken),
          )
    ]
