-- ===== src/Vardis.antt =====
-- dcp/vardis: the variable dissemination protocol.
pub mod Queue
pub mod Types
pub mod Seqno
pub mod Store
pub mod ArrayStore
pub mod Data
pub mod Receive
pub mod Service
pub mod Invariant
pub mod Transmit
pub mod Scrub
pub mod Receiver
pub mod History
pub mod Tests
