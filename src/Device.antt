-- ===== src/Device.antt =====
-- The device before a session is open: mtp/ptp/Device.cpp and mtp/usb/BulkPipe.cpp.
pub mod Descriptor
pub mod Endings
pub mod Layout
pub mod BulkPipe
pub mod Chosen
mod Tests
