-- ===== src/Reservations.antt =====
-- ReservationsService (apps/api/src/reservations/reservations.service.ts), by its operations, and
-- the exclusion constraint that the database puts on the table of reservations.
pub mod Constraint
pub mod Availability
pub mod Create
pub mod Booking
pub mod Modify
pub mod Cancel
pub mod Offer
pub mod Release
pub mod Status
pub mod Calendar
pub mod Reopening
pub mod Sweep
pub mod Holds
pub mod Placing
