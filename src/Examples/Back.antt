-- ===== src/Examples/Back.antt =====
-- The theorems on cleaning, idempotent calls and cash, at concrete calls.
use hospitality_os.CashDrawer.{apply_cash, close_drawer, open_drawer, reconcile}
use hospitality_os.CashDrawer.Shifts.{OneOpen, drawers-OneOpen}
use hospitality_os.CashDrawer.Variance.{shift_variance}
use hospitality_os.Common.{[], arith, none, refl, some, ◌+◌, ◌∷◌, ◌≡◌}
use hospitality_os.Common.Int.{neg, pos, sum_ℤ, ◌+ℤ◌, ◌-ℤ◌}
use hospitality_os.Enums.{ActorType, HkStatus, HkTaskType, InspResult, Priority, ShiftStatus}
use hospitality_os.Examples.Data.{manager, room_a, start_db}
use hospitality_os.Housekeeping.{complete, inspect, passed_task, start}
use hospitality_os.Housekeeping.Cycle.{begun, cleaned, cleaning_cycle, finished}
use hospitality_os.Idempotency.{run, store, stored}
use hospitality_os.Idempotency.Replay.{run_twice}
use hospitality_os.Store.{
  Action, Db, Error, HkTask, Response, Shift, err, find_by, for_each, item_keyed, ok, room_keyed,
  task_keyed, ◌>>=◌, ◌>>◌,
}

abbrev cleaning : HkTask
cleaning = record {
  id = 60;
  hotel_id = 1;
  room_id = 3;
  type = HkTaskType.checkout_clean;
  status = HkStatus.pending;
  assigned_to_id = none;
  priority = Priority.high;
  created_by_type = ActorType.system;
  started_at = none;
  completed_at = none;
  inspected_by_id = none;
  inspection_result = none;
  created_at = 0;
}

abbrev dirty_db : Db
dirty_db = record start_db { tasks = cleaning ∷ [] }

cleaning_cycle_example :
    let r =
      (start 1 manager 60 >> complete 2 manager 60 >> inspect 3 manager 60 InspResult.pass)
        dirty_db in
    (r.0 ≡ ok tt)
    × (find_by 3 r.1.rooms ≡ some (cleaned 3 room_a))
    × (find_by 60 r.1.tasks ≡ some (passed_task (some 9) (finished 2 (begun 1 cleaning))))
unfolding find_by
cleaning_cycle_example = cleaning_cycle 1 2 3 manager 60 dirty_db cleaning room_a refl refl

-- an operation that counts its calls in the identifiers
abbrev answer : Response
answer =
    Response.receipt
      (record { payment_id = 1; balance = pos 0; total_paid = pos 5; currency = "NGN" })

abbrev counting : Action Response
counting db = (ok answer, record db { next_id = db.next_id + 1 })

abbrev failing : Action Response
failing db = (err Error.no_availability, record db { next_id = db.next_id + 1 })

abbrev counted_db : Db
counted_db = record start_db {
  next_id = 101;
  idempotency = record { idempotency_key = "key-0001"; response = answer } ∷ [];
}

run_twice_example : run (some "key-0001") failing counted_db ≡ (ok answer, counted_db)
unfolding run stored store ◌>>=◌
run_twice_example =
    run_twice "key-0001" counting failing start_db counted_db answer (λ _. refl) refl

shift_variance_example :
    (s : Shift) × (((open_drawer manager (pos 1000)
          >> for_each (apply_cash 1 9) (pos 500 ∷ neg (pos 200) ∷ [])
          >> close_drawer 7 manager (pos 1250))
        start_db).0
      ≡ ok (s, pos 1000 +ℤ sum_ℤ (pos 500 ∷ neg (pos 200) ∷ [])))
    × (s.counted_cash ≡ some (pos 1250))
    × (s.variance ≡ some (pos 1250 -ℤ (pos 1000 +ℤ sum_ℤ (pos 500 ∷ neg (pos 200) ∷ []))))
    × (s.status ≡ ShiftStatus.closed)
    × (s.user_id ≡ 9)
shift_variance_example =
    shift_variance 7 9 manager (pos 1000) (pos 1250) (pos 500 ∷ neg (pos 200) ∷ []) start_db refl
      refl

-- the variance of that shift is a shortage of 50
shortage : pos 1250 -ℤ (pos 1000 +ℤ sum_ℤ (pos 500 ∷ neg (pos 200) ∷ [])) ≡ neg (pos 50)
unfolding ◌+ℤ◌ ◌-ℤ◌ neg
shortage = refl

drawers-OneOpen_example :
    OneOpen (open_drawer manager (pos 1000) start_db).1
    × OneOpen (apply_cash 1 9 (pos 1000) start_db).1
    × OneOpen (close_drawer 7 manager (pos 1000) start_db).1
    × OneOpen (reconcile manager 70 start_db).1
drawers-OneOpen_example =
    drawers-OneOpen manager 7 70 9 (pos 1000) start_db (record { at_most_one = λ h u. omega arith })
