-- ===== src/Indexer.antt =====
-- applications/kdapps/kdapp-indexer: what is indexed of the comment rooms.
pub mod Ordered
pub mod Store
pub mod Listener
pub mod Mirror
pub mod Queries
