-- ===== src/Motokano.antt =====
-- The crate motokano of rs/crates/motokano: an MCP server that destroys itself.
pub mod Counter
pub mod Tools
pub mod Server
pub mod Link
pub mod Startup
