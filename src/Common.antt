-- ===== src/Common.antt =====
-- dcp/common: what the protocols share.
pub mod Area
pub mod TimeStamp
pub mod RingBuffer
pub mod Memory
pub mod FiniteQueue
pub mod Tests
