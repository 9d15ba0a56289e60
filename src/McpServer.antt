-- ===== src/McpServer.antt =====
-- applications/kdapps/kdapp-mcp-server/src: the episode that the server runs.
pub mod Game
pub mod Window
pub mod Contract
