-- ===== src/Fuse.antt =====
-- fuse/fuse.cpp: the device as a file system.
pub mod State
pub mod Inodes
pub mod Listing
pub mod Access
pub mod Files
pub mod Directory
pub mod Requests
pub mod Steady
pub mod Quiet
pub mod QuietListing
pub mod QuietAccess
pub mod Serving
pub mod CacheSize
pub mod ServingFiles
pub mod ServingDirectory
pub mod Answers
pub mod Numbers
pub mod Reading
pub mod Stale
pub mod Entries
pub mod Made
pub mod Removed
pub mod Samples
mod Tests
pub mod Device
mod DeviceTests
