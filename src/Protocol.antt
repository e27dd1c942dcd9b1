-- ===== src/Protocol.antt =====
-- src/protocol.rs.
pub mod Codec
pub mod Errors
pub mod Text
pub mod Lines
pub mod Edits
pub mod Context
pub mod Requests
pub mod Versioned
