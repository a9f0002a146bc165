-- ===== src/Housekeeping/Cycle.antt =====
-- The cleaning of a room, from the start to the inspection.
use hospitality_os.Common.{List, String, arith, refl, some, ℕ, ◌∙◌, ◌∷◌, ◌≡◌}
use hospitality_os.Enums.{HkStatus, InspResult, RoomStatus}
use hospitality_os.Housekeeping.{
  complete, inspect, inspected, passed_task, room_status, start, transition,
}
use hospitality_os.Store.{
  Actor, AuditRow, Db, HkTask, Room, bind-ok, find_by, find_by-update_by, find_own, find_own-found,
  ok, room_keyed, task_keyed, update_by, ◌>>=◌, ◌>>◌,
}

-- the audit row that a call writes
abbrev pub audited : Actor → String → String → ℕ → Db → List AuditRow
audited actor action entity i db =
    record {
      hotel_id = actor.hotel_id;
      actor_id = actor.id;
      actor_type = actor.type;
      action = action;
      entity = entity;
      entity_id = i;
    }
    ∷ db.audits

-- the task, the room and the audit row of one step
abbrev pub stepped : Actor → ℕ → (HkTask → HkTask) → (room : ℕ) → (Room → Room) → String → Db → Db
stepped actor i g room f action db = record db {
  tasks = update_by i g db.tasks;
  rooms = update_by room f db.rooms;
  audits = audited actor action "HousekeepingTask" i db;
}

transition_lem :
    (actor : Actor) (i : ℕ) (g : HkTask → HkTask) (s : RoomStatus) (action : String) (db : Db)
    (task : HkTask)
    → find_own actor.hotel_id i db.tasks ≡ some task
    → transition actor i g s action db
      ≡ (ok tt, stepped actor i g task.room_id (room_status s) action db)
unfolding transition ◌>>=◌
transition_lem actor i g s action db task e = ground (arith, e)

abbrev pub begun : ℕ → HkTask → HkTask
begun now t = record t { status = HkStatus.in_progress; started_at = some now }

abbrev pub finished : ℕ → HkTask → HkTask
finished now t = record t { status = HkStatus.awaiting_inspection; completed_at = some now }

abbrev pub cleaned : ℕ → Room → Room
cleaned now r = record r { status = RoomStatus.available; last_cleaned_at = some now }

start_lem :
    (now : ℕ) (actor : Actor) (i : ℕ) (db : Db) (task : HkTask)
    → find_own actor.hotel_id i db.tasks ≡ some task
    → start now actor i db ≡ (
      ok tt,
      stepped actor i
          (begun now)
          task.room_id
          (room_status RoomStatus.cleaning)
          "housekeeping.started"
          db,
    )
unfolding start
start_lem now actor i db task e =
    transition_lem actor i (begun now) RoomStatus.cleaning "housekeeping.started" db task e

complete_lem :
    (now : ℕ) (actor : Actor) (i : ℕ) (db : Db) (task : HkTask)
    → find_own actor.hotel_id i db.tasks ≡ some task
    → complete now actor i db ≡ (
      ok tt,
      stepped actor i
          (finished now)
          task.room_id
          (room_status RoomStatus.inspection)
          "housekeeping.completed_with_proof"
          db,
    )
unfolding complete transition ◌>>=◌
complete_lem now actor i db task e = ground (arith, e)

inspect_lem :
    (now : ℕ) (actor : Actor) (i : ℕ) (result : InspResult) (db : Db) (task : HkTask)
    → find_own actor.hotel_id i db.tasks ≡ some task
    → inspect now actor i result db ≡ inspected now actor i task result db
unfolding inspect ◌>>=◌
inspect_lem now actor i result db task e = ground (arith, e)

-- a task is still found after it was updated
found_updated :
    (h i : ℕ) (g : HkTask → HkTask) (ts : List HkTask) (task : HkTask)
    → ((t : HkTask) → (g t).id ≡ t.id)
    → ((t : HkTask) → (g t).hotel_id ≡ t.hotel_id)
    → find_own h i ts ≡ some task
    → find_own h i (update_by i g ts) ≡ some (g task)
found_updated h i g ts task ids hotels e =
    ground (arith, find_by-update_by i i g ts ids, find_own-found h i ts task e, hotels task)

-- A task of the hotel that is started, completed and passed leaves its room available and cleaned
-- at the time of the inspection, and is itself passed, with its two times and its inspector.
pub cleaning_cycle :
    (t1 t2 t3 : ℕ) (actor : Actor) (i : ℕ) (db : Db) (task : HkTask) (room : Room)
    → find_own actor.hotel_id i db.tasks ≡ some task
    → find_by task.room_id db.rooms ≡ some room
    → let r = (start t1 actor i >> complete t2 actor i >> inspect t3 actor i InspResult.pass) db in
      (r.0 ≡ ok tt)
      × (find_by task.room_id r.1.rooms ≡ some (cleaned t3 room))
      × (find_by i r.1.tasks ≡ some (passed_task actor.id (finished t2 (begun t1 task))))
unfolding ◌>>=◌
cleaning_cycle t1 t2 t3 actor i db task room e er = rw done (refl, rooms, tasks)
  where
    db1 : Db
    db1 =
        stepped actor i (begun t1) task.room_id (room_status RoomStatus.cleaning)
          "housekeeping.started" db

    db2 : Db
    db2 =
        stepped actor i (finished t2) task.room_id (room_status RoomStatus.inspection)
          "housekeeping.completed_with_proof" db1

    e1 : find_own actor.hotel_id i db1.tasks ≡ some (begun t1 task)
    e1 = found_updated actor.hotel_id i (begun t1) db.tasks task (λ t. refl) (λ t. refl) e

    e2 : find_own actor.hotel_id i db2.tasks ≡ some (finished t2 (begun t1 task))
    e2 =
        found_updated actor.hotel_id i (finished t2) db1.tasks (begun t1 task) (λ t. refl)
          (λ t. refl) e1

    rooms :
        find_by task.room_id (update_by task.room_id (cleaned t3) db2.rooms)
        ≡ some (cleaned t3 room)
    rooms = ground (
      arith,
      er,
      find_by-update_by task.room_id task.room_id (room_status RoomStatus.cleaning) db.rooms
          (λ r. refl),
      find_by-update_by task.room_id task.room_id (room_status RoomStatus.inspection) db1.rooms
          (λ r. refl),
      find_by-update_by task.room_id task.room_id (cleaned t3) db2.rooms (λ r. refl),
    )

    tasks :
        find_by i (update_by i (passed_task actor.id) db2.tasks)
        ≡ some (passed_task actor.id (finished t2 (begun t1 task)))
    tasks = ground (
      arith,
      find_own-found actor.hotel_id i db2.tasks (finished t2 (begun t1 task)) e2,
      find_by-update_by i i (passed_task actor.id) db2.tasks (λ t. refl),
    )

    db3 : Db
    db3 =
        stepped actor i (passed_task actor.id) task.room_id (cleaned t3) "housekeeping.inspect_pass"
          db2

    passed : inspect t3 actor i InspResult.pass db2 ≡ (ok tt, db3)
    passed = inspect_lem t3 actor i InspResult.pass db2 (finished t2 (begun t1 task)) e2

    done :
        (start t1 actor i >> complete t2 actor i >> inspect t3 actor i InspResult.pass) db
        ≡ (ok tt, db3)
    done =
        bind-ok (start t1 actor i >> complete t2 actor i) (λ _. inspect t3 actor i InspResult.pass)
          db db2 tt
          (bind-ok (start t1 actor i) (λ _. complete t2 actor i) db db1 tt
              (start_lem t1 actor i db task e)
            ∙ complete_lem t2 actor i db1 (begun t1 task) e1)
        ∙ passed
