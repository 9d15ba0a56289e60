-- ===== src/CommentIt.antt =====
-- The comment room, applications/kdapps/comment-it/src.
pub mod Episode
