-- ===== src/Session.antt =====
-- mtp/ptp/Session.cpp: the session that runs one MTP transaction after another.
mod Tests
pub mod State
pub mod Transaction
pub mod Objects
pub mod Properties
pub mod Edit
pub mod Scope
pub mod Integers
pub mod Exchange
pub mod Confirmed
pub mod Partial
