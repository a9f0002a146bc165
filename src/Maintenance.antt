-- ===== src/Maintenance.antt =====
-- MaintenanceService (apps/api/src/maintenance/maintenance.service.ts): tickets, which may take a
-- room out of service and give it back, and the hand-over from housekeeping.
pub mod Escalation
use hospitality_os.Common.{
  Bool, Option, String, any, false, filterb, ltb, none, not, or_else, some, str_eq, true, ℕ, ◌&&◌,
  ◌*◌, ◌+◌, ◌==◌, ◌∷◌,
}
use hospitality_os.Enums.{
  HkStatus, MaintCategory, MaintSource, MaintStatus, Priority, Role, RoomStatus,
}
use hospitality_os.Housekeeping.{get_task, room_status, update_room}
use hospitality_os.Reservations.Cancel.{notify}
use hospitality_os.Store.{
  Action, Actor, DomainEvent, Error, HkTask, Notification, Ticket, emit, find_own, for_each,
  fresh_id, gets, modify, or_throw, pure, record_audit, ticket_keyed, transaction, update_by, when,
  ◌>>=◌, ◌>>◌,
}

pub record IssueInput : Type 0 where
  pub room_id : Option ℕ
  pub category : MaintCategory
  pub priority : Option Priority
  pub source : MaintSource
  pub reporter_role : Option Role
  pub takes_room_out_of_service : Bool

-- `SLA_HOURS`
unfoldable pub sla_hours : Priority → ℕ
sla_hours Priority.urgent = 2
sla_hours Priority.high = 8
sla_hours Priority.medium = 24
sla_hours Priority.low = 72

unfoldable pub new_ticket : (id now : ℕ) → Actor → IssueInput → Ticket
unfolding sla_hours
new_ticket i now actor input = record {
  id = i;
  hotel_id = actor.hotel_id;
  room_id = input.room_id;
  category = input.category;
  priority = or_else input.priority Priority.medium;
  status = MaintStatus.open_ticket;
  source = input.source;
  reporter_role = input.reporter_role;
  takes_room_out_of_service = input.takes_room_out_of_service;
  sla_due_at = now + sla_hours (or_else input.priority Priority.medium) * 3600 * 1000;
  resolved_at = none;
  closed_at = none;
}

-- `if (takesRoomOutOfService && roomId) room.update({ status })`
abbrev pub set_room : Bool → Option ℕ → RoomStatus → Action (Unit {0})
set_room flag none status = pure tt
set_room flag (some room) status = when flag (update_room room (room_status status))

unfoldable pub register_issue : (now : ℕ) → Actor → IssueInput → Action Ticket
unfolding new_ticket
register_issue now actor input = do
  ticket ← transaction do
    i ← fresh_id
    let t = new_ticket i now actor input
    modify λ db. record db { tickets = t ∷ db.tickets }
    set_room input.takes_room_out_of_service input.room_id RoomStatus.maintenance
    record_audit actor "maintenance.register" "MaintenanceTicket" i
    pure t
  emit (
      DomainEvent.maintenance_issue_registered actor.hotel_id ticket.id ticket.room_id
        ticket.category ticket.priority)
  notify actor.hotel_id Role.maintenance "maintenance.new" ticket.id
  pure ticket

abbrev pub get_ticket : ℕ → ℕ → Action Ticket
get_ticket h i = gets (λ db. find_own h i db.tickets) >>= λ t. or_throw t Error.not_found

-- the two statuses that give the room back
abbrev pub is_done : MaintStatus → Bool
is_done MaintStatus.resolved = true
is_done MaintStatus.closed = true
is_done _ = false

abbrev pub ticket_status : (now : ℕ) → MaintStatus → Ticket → Ticket
ticket_status now MaintStatus.resolved t = record t {
  status = MaintStatus.resolved;
  resolved_at = some now;
}
ticket_status now MaintStatus.closed t = record t {
  status = MaintStatus.closed;
  closed_at = some now;
}
ticket_status now s t = record t { status = s }

unfoldable pub update_status : (now : ℕ) → Actor → ℕ → MaintStatus → Action (Unit {0})
update_status now actor i status = do
  current ← get_ticket actor.hotel_id i
  transaction do
    modify λ db. record db { tickets = update_by i (ticket_status now status) db.tickets }
    set_room (is_done status && current.takes_room_out_of_service) current.room_id RoomStatus.dirty
    record_audit actor "maintenance.update_status" "MaintenanceTicket" i

-- `{ status: { notIn: [RESOLVED, CLOSED, CANCELLED] }, slaDueAt: { lt: now } }`
abbrev pub is_cancelled_ticket : MaintStatus → Bool
is_cancelled_ticket MaintStatus.cancelled = true
is_cancelled_ticket _ = false

abbrev pub is_overdue : ℕ → Ticket → Bool
is_overdue now t =
    not (is_done t.status) && not (is_cancelled_ticket t.status) && ltb t.sla_due_at now

-- `notification.findFirst({ where: { type, entityRef } })`
abbrev pub is_notice : String → ℕ → Notification → Bool
is_notice type i n = str_eq n.type type && n.entity_ref == i

-- one notification for each entity: an entity that has one is passed over
abbrev pub notify_once : ℕ → Role → String → ℕ → Action (Unit {0})
notify_once h role type i = gets (λ db. any (is_notice type i) db.notifications) >>= λ already.
    when (not already) (notify h role type i)

unfoldable pub escalate_overdue : (now : ℕ) → Action (Unit {0})
escalate_overdue now =
    gets (λ db. filterb (is_overdue now) db.tickets)
    >>= for_each (λ t. notify_once t.hotel_id Role.manager "maintenance.overdue" t.id)

-- HousekeepingService.registerIssueFromTask: an issue of the room of a cleaning task
unfoldable pub register_issue_from_task :
    (now : ℕ) → Actor → (task_id : ℕ) → IssueInput → Action Ticket
unfolding register_issue
register_issue_from_task now actor i input = do
  task ← get_task actor.hotel_id i
  register_issue now actor (record input {
    room_id = some task.room_id;
    source = MaintSource.housekeeping;
    reporter_role = some (or_else actor.role Role.housekeeping);
  })

-- HousekeepingService.alertDirtyTooLong: tasks that wait for more than 120 minutes
abbrev pub is_waiting : HkStatus → Bool
is_waiting HkStatus.pending = true
is_waiting HkStatus.assigned = true
is_waiting _ = false

abbrev pub is_stale : ℕ → HkTask → Bool
is_stale now t = is_waiting t.status && ltb (t.created_at + 120 * 60 * 1000) now

unfoldable pub alert_dirty_too_long : (now : ℕ) → Action (Unit {0})
alert_dirty_too_long now =
    gets (λ db. filterb (is_stale now) db.tasks)
    >>= for_each λ t. notify_once t.hotel_id Role.housekeeping "housekeeping.dirty_too_long" t.id
