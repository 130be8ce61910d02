-- ===== src/Wire.antt =====
-- servercomm: the binary encoding of the messages between modules.
pub mod Bytes
pub mod Write
pub mod Writes
pub mod Read
pub mod Reads
pub mod Nested
pub mod Sizes
pub mod Run
pub mod Bind
pub mod Info
pub mod Basic
pub mod Notify
pub mod Sessions
pub mod Forward
pub mod Call
pub mod Commands
mod Tests
