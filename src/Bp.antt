-- ===== src/Bp.antt =====
-- dcp/bp: the beaconing protocol.
pub mod Types
pub mod Segment
pub mod Command
pub mod Receive
pub mod Tests
