-- ===== src/Search.antt =====
-- The tools that search the workspace: src/glob.rs and src/grep.rs.
pub mod Lossy
pub mod Quiet
pub mod Ending
pub mod Glob
pub mod Grep
