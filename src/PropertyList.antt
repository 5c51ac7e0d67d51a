-- ===== src/PropertyList.antt =====
-- Object property lists: what the session and the library write, and the parser of
-- mtp/ptp/ObjectPropertyListParser.h.
mod Tests
pub mod Entries
pub mod Parser
pub mod RoundTrip
pub mod Skipping
pub mod Callbacks
pub mod Delivery
