-- ===== src/Lib.antt =====
-- HospitalityOS: the API of a hotel management system (apps/api), as a library of definitions and
-- theorems. The services of the API are classes of methods that read and write one relational
-- database; a method here is a function from a database to a result and a database.
--
-- The parts, and the files that model them:
-- - Store: the tables of apps/api/prisma/schema.prisma as lists of rows, the newest first, in one
--   record Db; the monad of the service calls (a throw keeps what was written before it, outside a
--   transaction); AuditService.record and EventBusService.emit (apps/api/src/common). Store.Rules has
--   the rules by which an invariant is carried through a call. Enums has the enumerations of
--   packages/shared/src/enums.ts.
-- - Rates: PricingService.quote (apps/api/src/rates/pricing.service.ts).
-- - Idempotency: IdempotencyService.run (apps/api/src/common/idempotency.service.ts).
-- - Reservations: ReservationsService (apps/api/src/reservations/reservations.service.ts), with the
--   exclusion constraint of apps/api/prisma/sql/booking_exclusion.sql, which the database checks at
--   every write of the table: Constraint; checkAvailability and findAvailableRooms: Availability;
--   create: Create; modify: Modify; cancel and releaseExpiredHolds: Cancel. Status has the state machine
--   of a reservation. Calendar and Reopening have the abstract view of the rows, as a calendar of the
--   rooms, and Holds the job that releases holds.
-- - Payments and CashDrawer: recordPayment (apps/api/src/payments/payments.service.ts) and the
--   cashier's shifts (cash-drawer.service.ts beside it). VirtualAccounts: the bank account numbers of
--   reservations and the transfers that arrive there (dynamic-accounts.service.ts beside it); the loop
--   that draws a number makes ten draws at most, which are an argument.
-- - Guests: the handlers of GuestsService for a recorded payment and for a check-out
--   (apps/api/src/guests/guests.service.ts).
-- - FrontDesk: checkIn and checkOut (apps/api/src/front-desk/front-desk.service.ts). The check-out
--   emits an event: its handler in Housekeeping creates a cleaning task, its handler in Guests counts
--   the visit.
-- - Housekeeping and Maintenance: the tasks and the tickets
--   (apps/api/src/housekeeping/housekeeping.service.ts, apps/api/src/maintenance/maintenance.service.ts).
-- - Rooms: the rooms and the statuses that are set by hand (apps/api/src/rooms/rooms.service.ts).
-- - Policy: can (apps/api/src/common/policy.ts).
-- - Inventory, Orders, Procurement, Promotions: the services of those names under apps/api/src
--   (orders in apps/api/src/restaurant). An order that is sent to the kitchen depletes the stock by
--   its recipes; a purchase order that is received adds to it; an order that is paid, a promo code and
--   a gift card write the folio of a reservation.
-- - NightAudit: the close of the business date (apps/api/src/night-audit/night-audit.service.ts).
-- - Billing: taxes, invoices, the accounts of companies and the daily journal
--   (apps/api/src/billing/billing.service.ts).
-- - PlatformBilling: the subscriptions of the hotels (apps/api/src/platform/platform-billing.service.ts),
--   and Entitlements: their features (packages/shared/src/entitlements.ts). Tenants: what the platform's
--   administrators do with a hotel (apps/api/src/platform/platform.service.ts).
-- - Ledger: the folios with their line items and payments as books, over all services that write them.
-- - Service: all the calls as one alphabet (Calls), and what every sequence of them keeps.
-- - Examples: concrete databases and calls.
--
-- How the program is read: identifiers are natural numbers, and a new row takes the next one; a date
-- is a number of milliseconds since the epoch; money and quantities are integers, of minor units and
-- of the smallest unit of a quantity; a number of the source is taken to stay below 2^53, where its
-- arithmetic is that of the integers. Calls follow one another; the interleaving of two calls on the
-- database is modelled where the code allows for it: the constraint on the reservations is checked
-- at each write, and the loops that number an invoice take what other calls write in between as an
-- argument. Every loop is a recursion on a list, on the number of nights or on the attempts that the
-- source allows (six), so no fuel is needed. The alphabet of Service has the calls of the guests'
-- stay, the transfers to virtual accounts, the rooms, the kitchen and the stock, and the night
-- audit; it leaves out the web hooks of the payment providers, which also confirm a held reservation
-- (apps/api/src/payments/payments-gateway.service.ts); the billing and the subscriptions have
-- sequences of calls of their own. The clock is an argument of the calls that read it. What is left
-- a parameter is the record External of Store.Outside: the expressions in floating-point numbers
-- (the percentage adjustment, the currency conversion, an inclusive tax, shares and percentages),
-- the feed of exchange rates, the cipher behind CryptoService, upper case, the digits of a number
-- and the search in a text, the months of the calendar, and the times at which the database stored a
-- payment or an invoice and a handler heard of a payment, and the points that a payment earns.
--
-- Not modelled: the web client, the handlers of events that only send a message or push to a
-- display, the controllers, authentication, the channels that deliver messages, the language model,
-- reports that only read, and, so far, the tables, the staff, the use of loyalty points, the web
-- hooks of payment providers, the registration of hotels, and the unique index on the idempotency
-- key of a reservation.
pub mod Common
pub mod Enums
pub mod Store
pub mod Rates
pub mod Idempotency
pub mod Reservations
pub mod Guests
pub mod CashDrawer
pub mod Payments
pub mod Housekeeping
pub mod FrontDesk
pub mod Policy
pub mod Inventory
pub mod Orders
pub mod Procurement
pub mod Promotions
pub mod Maintenance
pub mod Rooms
pub mod VirtualAccounts
pub mod NightAudit
pub mod Billing
pub mod PlatformBilling
pub mod Entitlements
pub mod Tenants
pub mod Ledger
pub mod Service
mod Examples
