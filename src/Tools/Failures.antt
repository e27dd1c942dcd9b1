-- ===== src/Tools/Failures.antt =====
-- The errors of the tools in src/util.rs, with the texts of the errors of src/snapshot.rs.
use hashline_rs.Prelude.{◌++◌, Option, none, some, if◌then◌else◌, Result, ok, map_err, Bytes, codes}
use hashline_rs.Paths.{FilePath, display}
use hashline_rs.Os.{Task, ret, call, ◌>>=◌, caught, cache_insert}
use hashline_rs.Os.Always.{Log, Always, ends, Always->>=, Always-mono, Always-caught}
use hashline_rs.Protocol.Codec.Decimal.{decimal}
use hashline_rs.Protocol.Errors.{
  ErrorCode, ProtocolError, not_found, snapshot_conflict_code, already_exists_code, to_string, from,
  new,
}
use hashline_rs.Protocol.Errors
use hashline_rs.Snapshot.{
  Snapshot, SnapshotError, io, contract, concurrent_modification, address_space, allocation,
  line_count_overflow, offset_failure, with_stamp,
}
use hashline_rs.Snapshot.Offsets.{
  OffsetKind, OffsetError, u32, u64, line_count_address_space, capacity, offset_width,
  line_count_mismatch, metadata_size_overflow, address_invariant,
}
use hashline_rs.Snapshot.Load.{is_not_found}
use hashline_rs.Snapshot.Stamp.{FileStamp}
use hashline_rs.Persist
use hashline_rs.Persist.{PersistError, destination_changed, destination_exists}

abbrev debug_kind : OffsetKind → Bytes
debug_kind u32 = codes "U32"
debug_kind u64 = codes "U64"

-- the `#[error("…")]` texts of `OffsetError`
unfoldable pub offset_text : OffsetError → Bytes
offset_text (line_count_address_space lines) =
    codes "snapshot line count "
    ++ (decimal lines ++ codes " does not fit the current address space")
offset_text (capacity lines) =
    codes "could not reserve offsets for " ++ (decimal lines ++ codes " logical lines")
offset_text (offset_width offset kind) =
    codes "byte offset "
    ++ (decimal offset ++ (codes " does not fit " ++ (debug_kind kind ++ codes " line metadata")))
offset_text (line_count_mismatch expected actual) =
    codes "expected "
    ++ (decimal expected ++ (codes " line offsets but materialized " ++ decimal actual))
offset_text metadata_size_overflow = codes "resident line-metadata size overflowed"
offset_text address_invariant = codes "validated line offset is outside the addressable text"

-- the `#[error("…")]` texts of `SnapshotError`
unfoldable pub snapshot_text : SnapshotError → Bytes
unfolding offset_text
snapshot_text (io operation path source) =
    codes "failed to "
    ++ (operation ++ (codes " " ++ (display path ++ (codes ": " ++ source.text))))
snapshot_text (contract e) = to_string e
snapshot_text (concurrent_modification path) =
    codes "file changed during both snapshot read attempts: " ++ display path
snapshot_text (address_space bytes) =
    codes "file length " ++ (decimal bytes ++ codes " cannot fit the current address space")
snapshot_text (allocation bytes) =
    codes "could not reserve " ++ (decimal bytes ++ codes " bytes for snapshot text")
snapshot_text line_count_overflow = codes "snapshot logical line count overflowed"
snapshot_text (offset_failure e) = offset_text e

-- `Failed to {operation} {path}: {text}`
abbrev failed_to : Bytes → FilePath → Bytes → Bytes
failed_to operation path text =
    codes "Failed to " ++ (operation ++ (codes " " ++ (display path ++ (codes ": " ++ text))))

-- the last case of `snapshot_protocol_error`
abbrev other_error : Bytes → FilePath → SnapshotError → ProtocolError
other_error operation path e = new Errors.io (failed_to operation path (snapshot_text e))

unfoldable pub snapshot_protocol_error : Bytes → FilePath → SnapshotError → ProtocolError
unfolding snapshot_text
snapshot_protocol_error operation path (contract e) = from e
snapshot_protocol_error operation path (io io_operation io_path source) =
    new (if is_not_found source.error_kind then not_found else Errors.io)
      (failed_to io_operation io_path source.text)
snapshot_protocol_error operation path (concurrent_modification changed) =
    new Errors.io (codes "file changed during both snapshot read attempts: " ++ display changed)
snapshot_protocol_error operation path (address_space bytes) =
    other_error operation path (address_space bytes)
snapshot_protocol_error operation path (allocation bytes) =
    other_error operation path (allocation bytes)
snapshot_protocol_error operation path line_count_overflow =
    other_error operation path line_count_overflow
snapshot_protocol_error operation path (offset_failure e) =
    other_error operation path (offset_failure e)

unfoldable pub persist_protocol_error : PersistError → ProtocolError
persist_protocol_error (destination_changed path) =
    new snapshot_conflict_code (codes "destination changed before atomic rename: " ++ display path)
persist_protocol_error (destination_exists path) =
    new already_exists_code (codes "destination already exists: " ++ display path)
persist_protocol_error (Persist.io operation path source) =
    new Errors.io (failed_to operation path source.text)

-- `.map_err(f)` on a task
abbrev pub map_failure : {E F A : Type 0} → (E → F) → Task E A → Task F A
map_failure f m = caught m >>= λ r. ret (map_err f r)

pub Always-map_failure :
    {E F A : Type 0} {Q : Log → Result F A → Type 0} (f : E → F) (m : Task E A) {log : Log}
    → Always (λ l r. Q l (map_err f r)) log m
    → Always Q log (map_failure f m)
Always-map_failure {Q = Q} f m h =
    Always->>= Q (caught m) _ (Always-caught m (Always-mono m (λ l r q. ends q) h))

-- the insertion into the process cache, under a confirmed stamp only
abbrev pub remember : FilePath → Snapshot → Option FileStamp → Task ProtocolError (Unit {0})
remember path s none = ret (ok tt)
remember path s (some stamp) = call (cache_insert path (with_stamp s stamp)) (λ _. ret (ok tt))
