-- ===== src/Housekeeping.antt =====
-- HousekeepingService (apps/api/src/housekeeping/housekeeping.service.ts): cleaning tasks, from the
-- checkout that creates one to the inspection that makes the room available.
pub mod Cycle
use hospitality_os.Common.{Option, String, if◌then◌else◌, is_some, none, or_else, some, ℕ, ◌∷◌}
use hospitality_os.Enums.{HkStatus, HkTaskType, InspResult, Priority, RoomStatus}
use hospitality_os.Reservations.Cancel.{system_actor}
use hospitality_os.Store.{
  Action, Actor, Db, DomainEvent, Error, HkTask, Result, Room, emit, find_own, fresh_id, gets,
  modify, ok, or_throw, pure, record_audit, room_keyed, task_keyed, transaction, update_by, ◌>>=◌,
  ◌>>◌,
}

pub record TaskInput : Type 0 where
  pub room_id : ℕ
  pub type : HkTaskType
  pub priority : Option Priority
  pub assigned_to_id : Option ℕ

abbrev pub new_task : (id now : ℕ) → Actor → TaskInput → HkTask
new_task i now actor input = record {
  id = i;
  hotel_id = actor.hotel_id;
  room_id = input.room_id;
  type = input.type;
  status = if is_some input.assigned_to_id then HkStatus.assigned else HkStatus.pending;
  assigned_to_id = input.assigned_to_id;
  priority = or_else input.priority Priority.medium;
  created_by_type = actor.type;
  started_at = none;
  completed_at = none;
  inspected_by_id = none;
  inspection_result = none;
  created_at = now;
}

unfoldable pub create_task : (now : ℕ) → Actor → TaskInput → Action HkTask
create_task now actor input = do
  i ← fresh_id
  let task = new_task i now actor input
  modify λ db. record db { tasks = task ∷ db.tasks }
  record_audit actor "housekeeping.task_created" "HousekeepingTask" i
  emit (DomainEvent.housekeeping_task_created actor.hotel_id i input.room_id)
  pure task

-- `onReservationCheckedOut`: a failure is logged
abbrev pub catch_all {ℓ} : {A : Type ℓ} → Result A × Db → Result (Unit {0}) × Db
catch_all (_, db) = (ok tt, db)

unfoldable pub on_reservation_checked_out : (now hotel_id room_id : ℕ) → Action (Unit {0})
unfolding create_task
on_reservation_checked_out now h room db = catch_all (
    create_task now (system_actor h)
      (record {
        room_id = room;
        type = HkTaskType.checkout_clean;
        priority = some Priority.high;
        assigned_to_id = none;
      })
      db)

abbrev pub get_task : ℕ → ℕ → Action HkTask
get_task h i = gets (λ db. find_own h i db.tasks) >>= λ t. or_throw t Error.not_found

abbrev pub update_task : ℕ → (HkTask → HkTask) → Action (Unit {0})
update_task i g = modify λ db. record db { tasks = update_by i g db.tasks }

abbrev pub update_room : ℕ → (Room → Room) → Action (Unit {0})
update_room i g = modify λ db. record db { rooms = update_by i g db.rooms }

-- `{ ...room, status }`
abbrev pub room_status : RoomStatus → Room → Room
room_status s r = record r { status = s }

unfoldable pub assign : Actor → ℕ → (user_id : ℕ) → Action (Unit {0})
assign actor i user = do
  get_task actor.hotel_id i
  update_task i λ t. record t { assigned_to_id = some user; status = HkStatus.assigned }
  record_audit actor "housekeeping.task_assigned" "HousekeepingTask" i

-- `transition`: the task and its room change in one transaction, whatever their statuses are
unfoldable pub transition : Actor → ℕ → (HkTask → HkTask) → RoomStatus → String → Action (Unit {0})
transition actor i g status action = do
  task ← get_task actor.hotel_id i
  transaction do
    update_task i g
    update_room task.room_id (room_status status)
    record_audit actor action "HousekeepingTask" i

unfoldable pub start : (now : ℕ) → Actor → ℕ → Action (Unit {0})
unfolding transition
start now actor i =
    transition actor i (λ t. record t { status = HkStatus.in_progress; started_at = some now })
      RoomStatus.cleaning "housekeeping.started"

unfoldable pub complete : (now : ℕ) → Actor → ℕ → Action (Unit {0})
unfolding transition
complete now actor i = do
  get_task actor.hotel_id i
  transition actor i
      (λ t. record t { status = HkStatus.awaiting_inspection; completed_at = some now })
      RoomStatus.inspection "housekeeping.completed_with_proof"

abbrev pub passed_task : Option ℕ → HkTask → HkTask
passed_task by t = record t {
  status = HkStatus.passed;
  inspection_result = some InspResult.pass;
  inspected_by_id = by;
}

-- the same task is opened again
abbrev pub reopened_task : Option ℕ → HkTask → HkTask
reopened_task by t = record t {
  status = HkStatus.pending;
  inspection_result = some InspResult.fail;
  inspected_by_id = by;
  started_at = none;
  completed_at = none;
}

abbrev pub inspected : (now : ℕ) → Actor → ℕ → HkTask → InspResult → Action (Unit {0})
inspected now actor i task InspResult.pass = transaction do
  update_task i (passed_task actor.id)
  update_room task.room_id
      λ r. record r { status = RoomStatus.available; last_cleaned_at = some now }
  record_audit actor "housekeeping.inspect_pass" "HousekeepingTask" i
inspected now actor i task InspResult.fail = transaction do
  update_task i (reopened_task actor.id)
  update_room task.room_id (room_status RoomStatus.dirty)
  record_audit actor "housekeeping.inspect_fail" "HousekeepingTask" i

unfoldable pub inspect : (now : ℕ) → Actor → ℕ → InspResult → Action (Unit {0})
inspect now actor i result = get_task actor.hotel_id i >>= λ task. inspected now actor i task result
