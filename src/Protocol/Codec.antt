-- ===== src/Protocol/Codec.antt =====
-- src/protocol.rs: the textual forms of numbers, positions, identities and write preconditions.
pub mod Decimal
pub mod Position
pub mod SnapshotId
pub mod WriteExpect
