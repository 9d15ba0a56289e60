-- ===== src/Merchant.antt =====
-- The merchant application, applications/kdapps/kdapp-merchant/src.
pub mod Tlv
pub mod Router
pub mod Storage
pub mod Invoices
pub mod Subscriptions
pub mod Episode
