-- ===== src/Mcp.antt =====
-- services/mssql-mcp/mssql_mcp_app: the metadata tool server, as far as it guards and caches its
-- tools.
pub mod Guardrails
pub mod Redaction
pub mod ToolCache
pub mod Schema
pub mod Registry
mod Checks
