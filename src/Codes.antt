-- ===== src/Codes.antt =====
-- The enumerations of mtp/ptp: their values, their names, and the tests on object formats.
pub mod OperationCode
pub mod ResponseType
pub mod ObjectFormat
pub mod ObjectProperty
pub mod DataTypeCode
pub mod DeviceProperty
pub mod EventCode
pub mod Names
