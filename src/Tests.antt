-- ===== src/Tests.antt =====
-- Concrete runs of the components, and the properties applied to them.
mod Engine
mod TicTacToe
mod McpServer
mod Merchant
mod Receipts
mod UtxoCache
mod CommentIt
mod Indexer
mod Offchain
mod Generator
mod KaspaAuth
mod KasDraw
mod Proxy
mod CommentBoard
