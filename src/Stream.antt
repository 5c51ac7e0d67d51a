-- ===== src/Stream.antt =====
-- mtp/ptp/InputStream.h and mtp/ptp/OutputStream.h: the integers, arrays and strings of MTP.
mod Tests
pub mod Input
pub mod Output
pub mod Codec
pub mod Arrays
pub mod Text
pub mod Characters
pub mod Faults
pub mod Bounds
pub mod Fields
