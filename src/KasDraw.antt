-- ===== src/KasDraw.antt =====
-- The lottery, applications/kdapps/kas-draw/src.
pub mod Sorting
pub mod Episode
pub mod Tlv
pub mod Offchain
