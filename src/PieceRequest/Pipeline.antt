-- ===== src/PieceRequest/Pipeline.antt =====
-- The pipeline limit: no peer ever has more live requests than it allows.
pub mod Live
pub mod Reserving
pub mod Calls
