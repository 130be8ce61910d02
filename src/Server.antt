-- ===== src/Server.antt =====
-- server/rocserver.go: remote objects between modules.
pub mod Binding
pub mod Joined
pub mod Arrived
pub mod LastIds
pub mod Located
pub mod Notice
pub mod Waiting
pub mod Noticed
pub mod Calls
pub mod Numbered
pub mod Answers
pub mod Handed
pub mod Remote
pub mod Replied
pub mod Stuck
mod Tests
