-- ===== src/Examples.antt =====
-- Concrete databases and calls, on which the theorems are used.
mod Data
mod Stays
mod Back
mod Stock
mod Days
mod Accounts
mod Transfers
mod Tenancy
