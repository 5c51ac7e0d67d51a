-- ===== src/Messages.antt =====
-- mtp/ptp/Messages.h and mtp/ptp/Messages.cpp: the data sets of MTP and their encodings.
mod Tests
pub mod Object
pub mod Device
pub mod RoundTrip
