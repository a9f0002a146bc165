-- ===== src/Service/Rooms.antt =====
-- The calls of housekeeping, maintenance and the cash drawers write no reservation and no folio.
use hospitality_os.CashDrawer.{close_drawer, open_drawer, open_new, reconcile}
use hospitality_os.Common.{Bool, Option, String, none, some, ℕ}
use hospitality_os.Common.Int.{ℤ}
use hospitality_os.Enums.{InspResult, MaintStatus, RoomStatus}
use hospitality_os.Housekeeping.{
  TaskInput, assign, complete, create_task, inspect, inspected, start, transition,
}
use hospitality_os.Maintenance.{
  IssueInput, alert_dirty_too_long, escalate_overdue, register_issue, register_issue_from_task,
  set_room, update_status,
}
use hospitality_os.Rooms.{create_room, create_room_type, remove_room, set_room_status}
use hospitality_os.Service.Frame.{Framed, fresh_id-Keeps, modify-Keeps}
use hospitality_os.Store.{Actor, Db, HkTask, Keeps, Reservation, VirtualAccount, keeping}
use hospitality_os.VirtualAccounts.{DvaDto, create_account, open_account}

module _ (P : Db → Type 0) (framed : Framed P) where
  pub create_task-Keeps :
      (now : ℕ) (actor : Actor) (input : TaskInput) → Keeps P (create_task now actor input)
  unfolding create_task
  create_task-Keeps now actor input = search (keeping, modify-Keeps, fresh_id-Keeps) depth 20

  pub assign-Keeps : (actor : Actor) (i user : ℕ) → Keeps P (assign actor i user)
  unfolding assign
  assign-Keeps actor i user = search (keeping, modify-Keeps) depth 20

  pub transition-Keeps :
      (actor : Actor) (i : ℕ) (g : HkTask → HkTask) (s : RoomStatus) (action : String)
      → Keeps P (transition actor i g s action)
  unfolding transition
  transition-Keeps actor i g s action = search (keeping, modify-Keeps) depth 20

  pub start-Keeps : (now : ℕ) (actor : Actor) (i : ℕ) → Keeps P (start now actor i)
  unfolding start
  start-Keeps now actor i = search (keeping, transition-Keeps) depth 20

  pub complete-Keeps : (now : ℕ) (actor : Actor) (i : ℕ) → Keeps P (complete now actor i)
  unfolding complete
  complete-Keeps now actor i = search (keeping, transition-Keeps) depth 20

  inspected-Keeps :
      (now : ℕ) (actor : Actor) (i : ℕ) (task : HkTask) (r : InspResult)
      → Keeps P (inspected now actor i task r)
  inspected-Keeps now actor i task InspResult.pass = search (keeping, modify-Keeps) depth 20
  inspected-Keeps now actor i task InspResult.fail = search (keeping, modify-Keeps) depth 20

  pub inspect-Keeps :
      (now : ℕ) (actor : Actor) (i : ℕ) (r : InspResult) → Keeps P (inspect now actor i r)
  unfolding inspect
  inspect-Keeps now actor i r = search (keeping, inspected-Keeps) depth 20

  set_room-Keeps : (flag : Bool) (room : Option ℕ) (s : RoomStatus) → Keeps P (set_room flag room s)
  set_room-Keeps flag none s = λ db h. h
  set_room-Keeps flag (some room) s = search (keeping, modify-Keeps) depth 20

  pub register_issue-Keeps :
      (now : ℕ) (actor : Actor) (input : IssueInput) → Keeps P (register_issue now actor input)
  unfolding register_issue
  register_issue-Keeps now actor input =
      search (keeping, modify-Keeps, fresh_id-Keeps, set_room-Keeps) depth 20

  pub update_status-Keeps :
      (now : ℕ) (actor : Actor) (i : ℕ) (s : MaintStatus) → Keeps P (update_status now actor i s)
  unfolding update_status
  update_status-Keeps now actor i s = search (keeping, modify-Keeps, set_room-Keeps) depth 20

  pub escalate_overdue-Keeps : (now : ℕ) → Keeps P (escalate_overdue now)
  unfolding escalate_overdue
  escalate_overdue-Keeps now = search (keeping, modify-Keeps) depth 20

  pub register_issue_from_task-Keeps :
      (now : ℕ) (actor : Actor) (i : ℕ) (input : IssueInput)
      → Keeps P (register_issue_from_task now actor i input)
  unfolding register_issue_from_task
  register_issue_from_task-Keeps now actor i input = search (keeping, register_issue-Keeps) depth 20

  pub alert_dirty_too_long-Keeps : (now : ℕ) → Keeps P (alert_dirty_too_long now)
  unfolding alert_dirty_too_long
  alert_dirty_too_long-Keeps now = search (keeping, modify-Keeps) depth 20

  pub open_drawer-Keeps : (actor : Actor) (float : ℤ) → Keeps P (open_drawer actor float)
  unfolding open_drawer open_new
  open_drawer-Keeps actor float = search (keeping, modify-Keeps, fresh_id-Keeps) depth 20

  pub close_drawer-Keeps :
      (now : ℕ) (actor : Actor) (cash : ℤ) → Keeps P (close_drawer now actor cash)
  unfolding close_drawer
  close_drawer-Keeps now actor cash = search (keeping, modify-Keeps) depth 20

  pub reconcile-Keeps : (actor : Actor) (i : ℕ) → Keeps P (reconcile actor i)
  unfolding reconcile
  reconcile-Keeps actor i = search (keeping, modify-Keeps) depth 20

  pub set_room_status-Keeps :
      (actor : Actor) (i : ℕ) (s : RoomStatus) → Keeps P (set_room_status actor i s)
  unfolding set_room_status
  set_room_status-Keeps actor i s = search (keeping, modify-Keeps) depth 20

  pub remove_room-Keeps : (now : ℕ) (actor : Actor) (i : ℕ) → Keeps P (remove_room now actor i)
  unfolding remove_room
  remove_room-Keeps now actor i = search (keeping, modify-Keeps) depth 20

  pub create_room-Keeps : (actor : Actor) (t : ℕ) → Keeps P (create_room actor t)
  unfolding create_room
  create_room-Keeps actor t = search (keeping, modify-Keeps, fresh_id-Keeps) depth 20

  pub create_room_type-Keeps : (actor : Actor) (base : ℤ) → Keeps P (create_room_type actor base)
  unfolding create_room_type
  create_room_type-Keeps actor base = search (keeping, modify-Keeps, fresh_id-Keeps) depth 20

  open_account-Keeps :
      (now : ℕ) (n : ℕ → ℕ) (reference : String) (actor : Actor) (r : Reservation) (dto : DvaDto)
      (o : Option VirtualAccount)
      → Keeps P (open_account now n reference actor r dto o)
  unfolding open_account
  open_account-Keeps now n reference actor r dto none =
      search (keeping, modify-Keeps, fresh_id-Keeps) depth 24
  open_account-Keeps now n reference actor r dto (some a) = λ db h. h

  pub create_account-Keeps :
      (now : ℕ) (n : ℕ → ℕ) (reference : String) (actor : Actor) (i : ℕ) (dto : DvaDto)
      → Keeps P (create_account now n reference actor i dto)
  unfolding create_account
  create_account-Keeps now n reference actor i dto = search (keeping, open_account-Keeps) depth 20
