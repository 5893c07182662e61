-- ===== src/Server.antt =====
-- pkg/server: the tool registry and the handlers of the MCP server. The MCP library is outside: the
-- server keeps what it handed to the library last, and the notifications that it sent.
pub mod Tools
pub mod Registry
pub mod Call
pub mod Refines
pub mod Metrics
