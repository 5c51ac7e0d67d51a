-- ===== src/Library.antt =====
-- mtp/metadata/Library.cpp: artists, albums, tracks and playlists on the device.
pub mod Interface
pub mod State
pub mod Lists
pub mod Artists
pub mod Albums
pub mod Playlists
pub mod Start
pub mod Tracks
pub mod Written
pub mod Names
pub mod Announced
pub mod Loading
mod Tests
pub mod Samples
