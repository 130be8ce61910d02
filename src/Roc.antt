-- ===== src/Roc.antt =====
-- roc: the objects of remote calls, where they are, and the path that a call names.
pub mod Cache
pub mod Path
pub mod Pool
pub mod Objects
mod Tests
