-- ===== src/CommentBoard.antt =====
-- The comment board, applications/kdapps/comment-board/src.
pub mod Commands
pub mod Scripts
pub mod Contract
pub mod Board
pub mod Episode
pub mod Wallet
