-- ===== src/Reservations/Status.antt =====
-- The statuses of a reservation as a state machine.
use hospitality_os.Common.{
  Bool-cases, List, ap, arith, false, inl, inr, refl, some, true, ℕ, ◌<◌, ◌==◌, ◌≡◌, ◌⊎◌,
}
use hospitality_os.Enums.{ReservationStatus}
use hospitality_os.Reservations.Cancel.{is_checked_out}
use hospitality_os.Store.{Reservation, find_by, find_by-update_by, reservation_keyed, update_by}

-- what the services do to the status of a reservation
pub data Step : ReservationStatus → ReservationStatus → Type 0 where
  arrives_confirmed : Step ReservationStatus.confirmed ReservationStatus.checked_in
  arrives_held : Step ReservationStatus.held ReservationStatus.checked_in
  leaves : Step ReservationStatus.checked_in ReservationStatus.checked_out
  pays_by_transfer : Step ReservationStatus.held ReservationStatus.confirmed
  stays_away : Step ReservationStatus.confirmed ReservationStatus.no_show
  cancels : (s : ReservationStatus) → is_checked_out s ≡ false → Step s ReservationStatus.cancelled

pub data Steps : ReservationStatus → ReservationStatus → Type 0 where
  stays : (s : ReservationStatus) → Steps s s
  then_step : (s t u : ReservationStatus) → Steps s t → Step t u → Steps s u

pub Step-from_checked_out : (s t : ReservationStatus) → Step s t → is_checked_out s ≡ false
Step-from_checked_out _ _ Step.arrives_confirmed = refl
Step-from_checked_out _ _ Step.arrives_held = refl
Step-from_checked_out _ _ Step.leaves = refl
Step-from_checked_out _ _ Step.stays_away = refl
Step-from_checked_out _ _ Step.pays_by_transfer = refl
Step-from_checked_out _ _ (Step.cancels s e) = e

-- no step leads out of CHECKED_OUT
pub checked_out_final :
    (s t : ReservationStatus) → Steps s t → is_checked_out s ≡ true → is_checked_out t ≡ true
checked_out_final _ _ (Steps.stays s) e = e
checked_out_final _ _ (Steps.then_step s t u path step) e =
    let before = checked_out_final s t path e in
    let live = Step-from_checked_out t u step in absurd (ground (arith, before, live))

-- a reservation that is found, and whose status has moved from `s` along the steps
pub record Tracked (j : ℕ) (s : ReservationStatus) (rs : List Reservation) (n : ℕ) : Type 0 where
  pub below : j < n
  pub row : Reservation
  pub found : find_by j rs ≡ some row
  pub path : Steps s row.status

-- a write of the reservation that was found
pub write-Tracked :
    (j i : ℕ) (s : ReservationStatus) (g : Reservation → Reservation) (r : Reservation)
    (rs : List Reservation) (n : ℕ)
    → find_by i rs ≡ some r
    → ((x : Reservation) → (g x).id ≡ x.id)
    → ((g r).status ≡ r.status) ⊎ Step r.status (g r).status
    → Tracked j s rs n
    → Tracked j s (update_by i g rs) n
write-Tracked j i s g r rs n e ids move_on t = elim (Bool-cases (i == j)) [
  | inl same ↦ record {
    below = t.below;
    row = g r;
    found = ground (arith, e, same, find_by-update_by i j g rs ids);
    path = moved_on (here same);
  }
  | inr other ↦ record {
    below = t.below;
    row = t.row;
    found = ground (arith, other, t.found, find_by-update_by i j g rs ids);
    path = t.path;
  }
]
  where
    here : (i == j) ≡ true → t.row ≡ r
    here same = ground (arith, same, e, t.found)

    moved_on : t.row ≡ r → Steps s (g r).status
    moved_on q = elim move_on [
      | inl kept ↦ rw kept (rw (ap (λ x. x.status) q) at t.path)
      | inr step ↦
          Steps.then_step s r.status (g r).status (rw (ap (λ x. x.status) q) at t.path) step
    ]

-- a write that changes no status
pub write_same-Tracked :
    (j i : ℕ) (s : ReservationStatus) (g : Reservation → Reservation) (rs : List Reservation)
    (n : ℕ)
    → ((x : Reservation) → (g x).id ≡ x.id)
    → ((x : Reservation) → (g x).status ≡ x.status)
    → Tracked j s rs n
    → Tracked j s (update_by i g rs) n
write_same-Tracked j i s g rs n ids same_status t = elim (Bool-cases (i == j)) [
  | inl same ↦ record {
    below = t.below;
    row = g t.row;
    found = ground (arith, same, t.found, find_by-update_by i j g rs ids);
    path = rw (same_status t.row) t.path;
  }
  | inr other ↦ record {
    below = t.below;
    row = t.row;
    found = ground (arith, other, t.found, find_by-update_by i j g rs ids);
    path = t.path;
  }
]
