-- ===== src/Store/Database.antt =====
-- The database as one value, and the primary keys of its tables. A new row takes the next
-- identifier, which no other row has: `@default(uuid())`.
use hospitality_os.Common.{List, Option, String, [], ℕ}
use hospitality_os.Common.Int.{ℤ}
use hospitality_os.Enums.{MaintCategory, Priority}
use hospitality_os.Store.Rows.{
  AuditRow, CompanyAccount, DailyRate, Folio, GiftCard, Guest, HkTask, Hotel, Invoice, Item,
  LineItem, LoyaltyRow, MenuItem, Movement, NightAuditRun, Notification, Order, Payment, Plan,
  PromoCode, PurchaseOrder, RatePlan, Reservation, Room, RoomType, Shift, StatusChange, StockCount,
  SubInvoice, TaxRate, Ticket, VirtualAccount,
}
use hospitality_os.Store.Tables.{Keyed}

-- the display that an order line goes to
pub data Station : Type 0 where
  kitchen bar : Station

-- the rows of `OutboxEvent`: the name of a domain event and its payload
pub data DomainEvent : Type 0 where
  reservation_created : (hotel_id reservation_id : ℕ) (room_id : Option ℕ) → DomainEvent
  reservation_modified : (hotel_id reservation_id : ℕ) → DomainEvent
  reservation_cancelled : (hotel_id reservation_id : ℕ) (reason : String) → DomainEvent
  reservation_checked_in : (hotel_id reservation_id room_id : ℕ) (actor_id : Option ℕ) → DomainEvent
  reservation_checked_out :
      (hotel_id reservation_id room_id : ℕ) (folio_balance : ℤ) (actor_id : Option ℕ) → DomainEvent
  payment_recorded :
      (hotel_id payment_id reservation_id folio_id : ℕ) (amount balance : ℤ) → DomainEvent
  housekeeping_task_created : (hotel_id task_id room_id : ℕ) → DomainEvent
  maintenance_issue_registered :
      (hotel_id ticket_id : ℕ) (room_id : Option ℕ) → MaintCategory → Priority → DomainEvent
  inventory_low_stock : (hotel_id item_id : ℕ) (current_qty reorder_point : ℤ) → DomainEvent
  kitchen_order_update : (hotel_id order_id : ℕ) → Station → List (ℕ × ℤ) → DomainEvent

-- what PaymentsService.recordPayment returns
pub record PaymentReceipt : Type 0 where
  pub payment_id : ℕ
  pub balance : ℤ
  pub total_paid : ℤ
  pub currency : String

-- the results that the idempotency table stores, as JSON
pub data Response : Type 0 where
  reservation : Reservation → Response
  receipt : PaymentReceipt → Response

-- a row of `IdempotencyKey`; what is stored is never null
pub record IdempotencyRow : Type 0 where
  pub idempotency_key : String
  pub response : Response

pub record Db : Type 0 where
  pub hotels : List Hotel
  pub rooms : List Room
  pub room_types : List RoomType
  pub rate_plans : List RatePlan
  pub daily_rates : List DailyRate
  pub guests : List Guest
  pub reservations : List Reservation
  pub history : List StatusChange
  pub folios : List Folio
  pub line_items : List LineItem
  pub payments : List Payment
  pub shifts : List Shift
  pub tasks : List HkTask
  pub tickets : List Ticket
  pub items : List Item
  pub movements : List Movement
  pub counts : List StockCount
  pub menu : List MenuItem
  pub orders : List Order
  pub purchase_orders : List PurchaseOrder
  pub promos : List PromoCode
  pub gift_cards : List GiftCard
  pub notifications : List Notification
  pub outbox : List DomainEvent
  pub audits : List AuditRow
  pub idempotency : List IdempotencyRow
  pub night_runs : List NightAuditRun
  pub tax_rates : List TaxRate
  pub companies : List CompanyAccount
  pub invoices : List Invoice
  pub plans : List Plan
  pub sub_invoices : List SubInvoice
  pub virtual_accounts : List VirtualAccount
  pub loyalty : List LoyaltyRow
  pub grace_period_days : ℕ
  pub next_id : ℕ

instance abbrev pub hotel_keyed : Keyed Hotel
hotel_keyed = record { key = λ r. r.id; tenant = λ r. r.id }

instance abbrev pub room_keyed : Keyed Room
room_keyed = record { key = λ r. r.id; tenant = λ r. r.hotel_id }

instance abbrev pub room_type_keyed : Keyed RoomType
room_type_keyed = record { key = λ r. r.id; tenant = λ r. r.hotel_id }

instance abbrev pub rate_plan_keyed : Keyed RatePlan
rate_plan_keyed = record { key = λ r. r.id; tenant = λ r. r.hotel_id }

instance abbrev pub guest_keyed : Keyed Guest
guest_keyed = record { key = λ r. r.id; tenant = λ r. r.hotel_id }

instance abbrev pub reservation_keyed : Keyed Reservation
reservation_keyed = record { key = λ r. r.id; tenant = λ r. r.hotel_id }

-- a folio hangs on a reservation; its hotel is the reservation's
instance abbrev pub folio_keyed : Keyed Folio
folio_keyed = record { key = λ r. r.id; tenant = λ r. r.reservation_id }

instance abbrev pub shift_keyed : Keyed Shift
shift_keyed = record { key = λ r. r.id; tenant = λ r. r.hotel_id }

instance abbrev pub task_keyed : Keyed HkTask
task_keyed = record { key = λ r. r.id; tenant = λ r. r.hotel_id }

instance abbrev pub ticket_keyed : Keyed Ticket
ticket_keyed = record { key = λ r. r.id; tenant = λ r. r.hotel_id }

instance abbrev pub item_keyed : Keyed Item
item_keyed = record { key = λ r. r.id; tenant = λ r. r.hotel_id }

instance abbrev pub menu_keyed : Keyed MenuItem
menu_keyed = record { key = λ r. r.id; tenant = λ r. r.hotel_id }

instance abbrev pub order_keyed : Keyed Order
order_keyed = record { key = λ r. r.id; tenant = λ r. r.hotel_id }

instance abbrev pub purchase_order_keyed : Keyed PurchaseOrder
purchase_order_keyed = record { key = λ r. r.id; tenant = λ r. r.hotel_id }

instance abbrev pub promo_keyed : Keyed PromoCode
promo_keyed = record { key = λ r. r.id; tenant = λ r. r.hotel_id }

instance abbrev pub gift_card_keyed : Keyed GiftCard
gift_card_keyed = record { key = λ r. r.id; tenant = λ r. r.hotel_id }

instance abbrev pub company_account_keyed : Keyed CompanyAccount
company_account_keyed = record { key = λ r. r.id; tenant = λ r. r.hotel_id }

-- the plans belong to the platform
instance abbrev pub plan_keyed : Keyed Plan
plan_keyed = record { key = λ r. r.id; tenant = λ r. 0 }

instance abbrev pub sub_invoice_keyed : Keyed SubInvoice
sub_invoice_keyed = record { key = λ r. r.id; tenant = λ r. r.hotel_id }

instance abbrev pub virtual_account_keyed : Keyed VirtualAccount
virtual_account_keyed = record { key = λ r. r.id; tenant = λ r. r.hotel_id }

-- a database with no rows
abbrev pub empty_db : Db
empty_db = record {
  hotels = [];
  rooms = [];
  room_types = [];
  rate_plans = [];
  daily_rates = [];
  guests = [];
  reservations = [];
  history = [];
  folios = [];
  line_items = [];
  payments = [];
  shifts = [];
  tasks = [];
  tickets = [];
  items = [];
  movements = [];
  counts = [];
  menu = [];
  orders = [];
  purchase_orders = [];
  promos = [];
  gift_cards = [];
  notifications = [];
  outbox = [];
  audits = [];
  idempotency = [];
  night_runs = [];
  tax_rates = [];
  companies = [];
  invoices = [];
  plans = [];
  sub_invoices = [];
  virtual_accounts = [];
  loyalty = [];
  grace_period_days = 7;
  next_id = 1;
}
