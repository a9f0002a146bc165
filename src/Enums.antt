-- ===== src/Enums.antt =====
-- The enumerations that the API and the web client share (packages/shared/src/enums.ts), for the
-- components that are modelled, and the sets of members that the code tests for.
use hospitality_os.Common.{Bool, false, true}

pub data Role : Type 0 where
  owner manager front_desk housekeeping maintenance kitchen bar procurement security : Role
  accountant : Role

pub data ActorType : Type 0 where
  user ai system guest : ActorType

pub data RoomStatus : Type 0 where
  available occupied dirty cleaning inspection maintenance out_of_service : RoomStatus

pub data ReservationStatus : Type 0 where
  enquiry held confirmed checked_in checked_out cancelled no_show : ReservationStatus

pub data ReservationSource : Type 0 where
  whatsapp walk_in phone ota website corporate : ReservationSource

pub data LineType : Type 0 where
  room fnb bar service tax discount adjustment : LineType

pub data PaymentMethod : Type 0 where
  cash transfer card pos paystack flutterwave : PaymentMethod

pub data PaymentType : Type 0 where
  deposit balance full refund : PaymentType

pub data ShiftStatus : Type 0 where
  open_shift closed reconciled : ShiftStatus

pub data HkTaskType : Type 0 where
  checkout_clean stayover_clean deep_clean inspection turn_down : HkTaskType

pub data HkStatus : Type 0 where
  pending assigned in_progress awaiting_inspection passed failed : HkStatus

pub data Priority : Type 0 where
  low medium high urgent : Priority

pub data InspResult : Type 0 where
  pass fail : InspResult

pub data MaintCategory : Type 0 where
  hvac plumbing electrical furniture appliance structural network_tv generator_power : MaintCategory
  other : MaintCategory

pub data MaintStatus : Type 0 where
  open_ticket acknowledged assigned in_progress on_hold resolved closed cancelled : MaintStatus

pub data MaintSource : Type 0 where
  housekeeping guest staff front_desk inspection preventive : MaintSource

pub data Outlet : Type 0 where
  restaurant bar room_service : Outlet

pub data OrderStatus : Type 0 where
  open_order sent_to_kitchen preparing served paid cancelled : OrderStatus

pub data MovementType : Type 0 where
  purchase_in sale_out wastage transfer adjustment count_correction : MovementType

pub data PoStatus : Type 0 where
  draft pending_approval approved sent partially_received received cancelled : PoStatus

pub data PromoType : Type 0 where
  percent fixed : PromoType

pub data HotelStatus : Type 0 where
  trial active suspended cancelled : HotelStatus

pub data PlanInterval : Type 0 where
  monthly quarterly yearly : PlanInterval

pub data SubInvoiceStatus : Type 0 where
  open_invoice paid overdue void : SubInvoiceStatus

pub data InvoiceStatus : Type 0 where
  draft issued paid void : InvoiceStatus

-- `BLOCKING_RESERVATION_STATUSES.includes(s)`
abbrev pub is_blocking : ReservationStatus → Bool
is_blocking ReservationStatus.held = true
is_blocking ReservationStatus.confirmed = true
is_blocking ReservationStatus.checked_in = true
is_blocking _ = false

-- the levels of `TIERS` (apps/api/src/guests/guests.service.ts)
pub data Tier : Type 0 where
  standard silver gold platinum : Tier
