-- ===== src/Msg.antt =====
-- msg: the messages, the pool that they come from, and their framing on a connection.
pub mod Pool
pub mod Binary
pub mod Supply
pub mod Encode
pub mod Decode
pub mod Given
pub mod Rounds
pub mod Frames
pub mod Stream
pub mod Sent
pub mod Commands
mod Tests
