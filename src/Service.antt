-- ===== src/Service.antt =====
-- The service calls of the API as one alphabet, and what every sequence of them keeps.
pub mod Frame
pub mod Rooms
pub mod Stock
pub mod Folios
pub mod Overlap
pub mod Known
pub mod Stockroom
pub mod Calls
pub mod Tracking
pub mod Transfers
pub mod Arrivals
pub mod Closing
pub mod Invariants
pub mod Lifecycle
