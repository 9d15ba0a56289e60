-- ===== src/Indexer/Mirror.antt =====
-- The store beside the rooms that the engine runs.
pub mod Writes
pub mod Rooms
pub mod Watched
pub mod Blocks
