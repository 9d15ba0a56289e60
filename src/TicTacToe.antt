-- ===== src/TicTacToe.antt =====
-- The tic-tac-toe application, applications/kdapps/tictactoe/src/game.rs.
pub mod Grid
pub mod Game
pub mod Marks
pub mod Undo
pub mod Play
pub mod Poll
