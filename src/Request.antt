-- ===== src/Request.antt =====
-- mtp/ptp/Container.h, mtp/ptp/OperationRequest.h and mtp/ptp/Response.h: the frames around the data.
pub mod ContainerType
pub mod Frames
mod Size
pub use Frames.*
pub use Size.*
