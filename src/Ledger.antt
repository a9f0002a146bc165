-- ===== src/Ledger.antt =====
-- The folios as a ledger: what their totals must say, over every service that writes one
-- (reservations, payments, orders, promotions).
pub mod Books
pub mod Posting
pub mod Stays
pub mod Outlets
