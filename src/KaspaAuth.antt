-- ===== src/KaspaAuth.antt =====
-- The authentication application, applications/kdapps/kaspa-auth/src.
pub mod Challenge
pub mod Episode
