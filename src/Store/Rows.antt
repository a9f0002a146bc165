-- ===== src/Store/Rows.antt =====
-- The rows of the tables that the modelled services read and write (apps/api/prisma/schema.prisma),
-- with the actor of a call. Identifiers are numbers, dates are milliseconds since the epoch, money
-- is in minor units, and texts that no code reads back are left out.
use hospitality_os.Common.{Bool, List, Option, String, ℕ}
use hospitality_os.Common.Int.{ℤ}
use hospitality_os.Enums.{
  ActorType, HkStatus, HkTaskType, HotelStatus, InspResult, InvoiceStatus, LineType, MaintCategory,
  MaintSource, MaintStatus, MovementType, OrderStatus, Outlet, PaymentMethod, PaymentType,
  PlanInterval, PoStatus, Priority, PromoType, ReservationSource, ReservationStatus, Role,
  RoomStatus, ShiftStatus, SubInvoiceStatus, Tier,
}

pub record Actor : Type 0 where
  pub id : Option ℕ
  pub type : ActorType
  pub role : Option Role
  pub hotel_id : ℕ

pub record Hotel : Type 0 where
  pub id : ℕ
  pub currency : String
  pub business_date : Option ℕ
  pub plan_id : Option ℕ
  pub status : HotelStatus
  pub approved : Bool
  pub approval_requested : Bool
  pub approved_at : Option ℕ
  pub trial_ends_at : Option ℕ
  pub suspended_at : Option ℕ
  pub suspend_reason : Option String
  pub current_period_end : Option ℕ

pub record Room : Type 0 where
  pub id : ℕ
  pub hotel_id : ℕ
  pub room_type_id : ℕ
  pub status : RoomStatus
  pub last_cleaned_at : Option ℕ
  pub deleted_at : Option ℕ

pub record RoomType : Type 0 where
  pub id : ℕ
  pub hotel_id : ℕ
  pub base_price : ℤ

-- the column `adjustmentType`, a string that the code compares with two others
pub data Adjustment : Type 0 where
  percent fixed absolute : Adjustment

pub record RatePlan : Type 0 where
  pub id : ℕ
  pub hotel_id : ℕ
  pub adjustment_type : Adjustment
  pub adjustment_value : ℤ
  pub active : Bool

pub record DailyRate : Type 0 where
  pub hotel_id : ℕ
  pub room_type_id : ℕ
  pub date : ℕ
  pub price : ℤ
  pub min_stay : Option ℕ
  pub max_stay : Option ℕ
  pub closed_to_arrival : Bool
  pub stop_sell : Bool

pub record Guest : Type 0 where
  pub id : ℕ
  pub hotel_id : ℕ
  pub name : String
  pub phone : String
  pub email : Option String
  pub whatsapp_id : Option String
  pub id_type : Option String
  pub id_number : Option String
  pub vip : Bool
  pub total_spent : ℤ
  pub loyalty_points : ℤ
  pub loyalty_tier : Tier
  pub visit_count : ℕ
  pub last_visit_at : Option ℕ
  pub notes : Option String

pub record Reservation : Type 0 where
  pub id : ℕ
  pub hotel_id : ℕ
  pub guest_id : ℕ
  pub room_id : Option ℕ
  pub room_type_id : ℕ
  pub check_in_date : ℕ
  pub check_out_date : ℕ
  pub status : ReservationStatus
  pub quoted_price : ℤ
  pub currency : String
  pub rate_plan_id : Option ℕ
  pub hold_expires_at : Option ℕ
  pub source : ReservationSource
  pub adults : ℕ
  pub children : ℕ
  pub special_requests : Option String
  pub created_by_id : Option ℕ
  pub created_by_type : ActorType

pub record StatusChange : Type 0 where
  pub reservation_id : ℕ
  pub from_status : Option ReservationStatus
  pub to_status : ReservationStatus
  pub by_id : Option ℕ
  pub note : String

pub record Folio : Type 0 where
  pub id : ℕ
  pub reservation_id : ℕ
  pub currency : String
  pub total_charges : ℤ
  pub total_paid : ℤ
  pub balance : ℤ

pub record LineItem : Type 0 where
  pub folio_id : ℕ
  pub type : LineType
  pub amount : ℤ
  pub quantity : ℤ
  pub by : Option ℕ

pub record Payment : Type 0 where
  pub id : ℕ
  pub hotel_id : ℕ
  pub folio_id : ℕ
  pub reservation_id : ℕ
  pub amount : ℤ
  pub currency : String
  pub base_amount : ℤ
  pub method : PaymentMethod
  pub type : PaymentType
  pub reference : Option String
  pub recorded_by_id : Option ℕ
  pub recorded_by_type : ActorType

pub record Shift : Type 0 where
  pub id : ℕ
  pub hotel_id : ℕ
  pub user_id : ℕ
  pub opening_float : ℤ
  pub expected_cash : ℤ
  pub counted_cash : Option ℤ
  pub variance : Option ℤ
  pub closed_at : Option ℕ
  pub status : ShiftStatus

pub record HkTask : Type 0 where
  pub id : ℕ
  pub hotel_id : ℕ
  pub room_id : ℕ
  pub type : HkTaskType
  pub status : HkStatus
  pub assigned_to_id : Option ℕ
  pub priority : Priority
  pub created_by_type : ActorType
  pub started_at : Option ℕ
  pub completed_at : Option ℕ
  pub inspected_by_id : Option ℕ
  pub inspection_result : Option InspResult
  pub created_at : ℕ

pub record Ticket : Type 0 where
  pub id : ℕ
  pub hotel_id : ℕ
  pub room_id : Option ℕ
  pub category : MaintCategory
  pub priority : Priority
  pub status : MaintStatus
  pub source : MaintSource
  pub reporter_role : Option Role
  pub takes_room_out_of_service : Bool
  pub sla_due_at : ℕ
  pub resolved_at : Option ℕ
  pub closed_at : Option ℕ

pub record Item : Type 0 where
  pub id : ℕ
  pub hotel_id : ℕ
  pub current_qty : ℤ
  pub par_level : ℤ
  pub reorder_point : ℤ
  pub cost_per_unit : ℤ

pub record Movement : Type 0 where
  pub hotel_id : ℕ
  pub item_id : ℕ
  pub type : MovementType
  pub quantity : ℤ
  pub by_id : Option ℕ
  pub by_type : ActorType

pub record StockCount : Type 0 where
  pub id : ℕ
  pub hotel_id : ℕ
  pub item_id : ℕ
  pub counted_qty : ℤ
  pub expected_qty : ℤ
  pub variance : ℤ

pub record OrderLine : Type 0 where
  pub id : ℕ
  pub menu_item_id : ℕ
  pub quantity : ℤ
  pub unit_price : ℤ
  pub line_total : ℤ
  pub voided : Bool

pub record Order : Type 0 where
  pub id : ℕ
  pub hotel_id : ℕ
  pub outlet : Outlet
  pub room_id : Option ℕ
  pub reservation_id : Option ℕ
  pub status : OrderStatus
  pub total : ℤ
  pub lines : List OrderLine

pub record Ingredient : Type 0 where
  pub inventory_item_id : ℕ
  pub quantity : ℤ

-- a menu item with the outlet of its category and the ingredients of its recipe
pub record MenuItem : Type 0 where
  pub id : ℕ
  pub hotel_id : ℕ
  pub price : ℤ
  pub outlet : Outlet
  pub recipe : List Ingredient

pub record PoItem : Type 0 where
  pub inventory_item_id : Option ℕ
  pub quantity : ℤ
  pub unit_cost : ℤ

pub record PurchaseOrder : Type 0 where
  pub id : ℕ
  pub hotel_id : ℕ
  pub supplier_id : ℕ
  pub items : List PoItem
  pub total : ℤ
  pub status : PoStatus
  pub drafted_by_type : ActorType
  pub approved_by_id : Option ℕ
  pub approved_at : Option ℕ
  pub received_at : Option ℕ

pub record PromoCode : Type 0 where
  pub id : ℕ
  pub hotel_id : ℕ
  pub code : String
  pub type : PromoType
  pub value : ℤ
  pub valid_from : Option ℕ
  pub valid_until : Option ℕ
  pub max_uses : Option ℕ
  pub used_count : ℕ
  pub active : Bool

pub record GiftCard : Type 0 where
  pub id : ℕ
  pub hotel_id : ℕ
  pub code : String
  pub balance : ℤ
  pub active : Bool

pub record Notification : Type 0 where
  pub hotel_id : ℕ
  pub role : Role
  pub type : String
  pub entity_ref : ℕ

pub record AuditRow : Type 0 where
  pub hotel_id : ℕ
  pub actor_id : Option ℕ
  pub actor_type : ActorType
  pub action : String
  pub entity : String
  pub entity_id : ℕ

-- `summary` of a night audit
pub record NightSummary : Type 0 where
  pub arrivals : ℕ
  pub departures : ℕ
  pub in_house : ℕ
  pub no_shows : ℕ
  pub occupancy_pct : ℕ
  pub revenue_collected : ℤ

pub record NightAuditRun : Type 0 where
  pub id : ℕ
  pub hotel_id : ℕ
  pub business_date : ℕ
  pub summary : NightSummary

-- a transaction of the type EARN
pub record LoyaltyRow : Type 0 where
  pub hotel_id : ℕ
  pub guest_id : ℕ
  pub points : ℤ
  pub reservation_id : ℕ

pub record TaxRate : Type 0 where
  pub id : ℕ
  pub hotel_id : ℕ
  pub percent_bps : ℕ
  pub inclusive : Bool
  pub active : Bool

pub record CompanyAccount : Type 0 where
  pub id : ℕ
  pub hotel_id : ℕ
  pub credit_limit : ℤ
  pub balance : ℤ

-- `InvoiceLine`, without its text
pub record InvoiceLine : Type 0 where
  pub amount : ℤ
  pub quantity : ℤ

-- the number of an invoice `INV-00017` is kept as 17
pub record Invoice : Type 0 where
  pub id : ℕ
  pub hotel_id : ℕ
  pub reservation_id : ℕ
  pub company_account_id : Option ℕ
  pub number : ℕ
  pub status : InvoiceStatus
  pub subtotal : ℤ
  pub tax_total : ℤ
  pub total : ℤ
  pub currency : String
  pub lines : List InvoiceLine

pub record Plan : Type 0 where
  pub id : ℕ
  pub price_minor : ℤ
  pub currency : String
  pub interval : PlanInterval

-- the number of an invoice `SUB-00017` is kept as 17
pub record SubInvoice : Type 0 where
  pub id : ℕ
  pub hotel_id : ℕ
  pub plan_id : Option ℕ
  pub number : ℕ
  pub period_start : ℕ
  pub period_end : ℕ
  pub amount_minor : ℤ
  pub currency : String
  pub status : SubInvoiceStatus
  pub due_at : ℕ
  pub paid_at : Option ℕ
  pub method : Option String
  pub reference : Option String

-- the column `status` of a virtual account, a string
pub data AccountStatus : Type 0 where
  active received expired : AccountStatus

-- a row of `DynamicVirtualAccount`, without its texts
pub record VirtualAccount : Type 0 where
  pub id : ℕ
  pub hotel_id : ℕ
  pub reservation_id : ℕ
  pub account_number : ℕ
  pub reference : String
  pub amount_expected : ℤ
  pub status : AccountStatus
  pub expires_at : Option ℕ
  pub received_at : Option ℕ
