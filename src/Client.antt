-- ===== src/Client.antt =====
-- The command line client: cli/Session.cpp and cli/Command.h.
pub mod Text
pub mod Names
pub mod Command
pub mod Dispatch
pub mod State
pub mod Paths
pub mod Walk
pub mod Storage
pub mod Prompt
pub mod Media
pub mod Import
mod Tests
mod GettingTests
pub mod Samples
pub mod Upload
pub mod Losing
pub mod Getting
pub mod Below
