-- ===== src/Tests.antt =====
-- The theorems at concrete inputs.
mod Samples
mod Codec
mod Requests
mod Edits
mod Files
mod Tools
mod Cache
mod Reads
mod Searches
mod Roots
