-- ===== src/Tools.antt =====
-- The tools that replace files: the pipelines of src/edit/mod.rs and src/write.rs, behind the
-- validation of the request and the resolution of its path.
pub mod Failures
pub mod Edit
pub mod Read
pub mod Write
