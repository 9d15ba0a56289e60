-- ===== src/Kdapp.antt =====
-- The framework crate, applications/kdapps/kdapp/src.
pub mod Episode
pub mod Engine
pub mod Generator
pub mod Proxy
pub mod UtxoCache
