-- ===== src/Protocol/Versioned.antt =====
-- The snapshot-checked operations of src/protocol.rs: `apply_versioned_reference_edits`,
-- `validate_reference_cursor` and `validate_reference_write`.
pub mod Conflicts
use hashline_rs.Prelude.{
  ℕ, Bool, true, false, not, List, [], ◌∷◌, ◌++◌, Option, none, some, ◌==◌, if◌then◌else◌, Result,
  ok, err, ◌>>=◌, ◌>>◌, map_err, Bytes, codes,
}
use hashline_rs.Protocol.Codec.Position.{Position}
use hashline_rs.Protocol.Codec.SnapshotId.{SnapshotId}
use hashline_rs.Protocol.Codec.WriteExpect.{WriteExpect, absent, snapshot}
use hashline_rs.Protocol.Errors.{
  ContractError, ProtocolError, ContextLine, SnapshotHeader, from, new, not_found,
  snapshot_conflict, already_exists,
}
use hashline_rs.Protocol.Edits.{EditOperation, apply_reference_edits}
use hashline_rs.Protocol.Context.{reference_header, reference_context}
use hashline_rs.Protocol.Lines.{validate_reference_position}
use hashline_rs.Protocol.Requests.{
  PageCursor, EditRequest, WriteRequest, validate_edit, validate_write,
}

abbrev pub snapshot_conflict_message : Bytes
snapshot_conflict_message = codes "the file no longer matches the requested snapshot"

abbrev pub already_exists_message : Bytes
already_exists_message = codes "the destination file already exists"

-- `Err(r?)` of a constructor that may itself fail
abbrev pub fail_with {ℓ} :
    {A : Type ℓ} → Result ContractError ProtocolError → Result ProtocolError A
fail_with (ok e) = err e
fail_with (err e) = err (from e)

-- the line of the first operation, or 1
abbrev pub first_line : List EditOperation → ℕ
first_line [] = 1
first_line (operation ∷ rest) = operation.start.line

unfoldable pub apply_versioned_reference_edits :
    Bytes → SnapshotId → EditRequest → Result ProtocolError Bytes
apply_versioned_reference_edits source current_snapshot request = do
  map_err from (validate_edit request)
  current_header ← map_err from (reference_header request.file_path current_snapshot source)
  if not (request.snapshot == current_snapshot)
      then (do
        context ← map_err from (reference_context source (first_line request.edits))
        fail_with
            (snapshot_conflict request.snapshot current_header context snapshot_conflict_message))
      else map_err from (apply_reference_edits source request.edits)

unfoldable pub validate_reference_cursor :
    Bytes → Bytes → SnapshotId → PageCursor → Result ProtocolError Position
validate_reference_cursor path source current_snapshot cursor = do
  current_header ← map_err from (reference_header path current_snapshot source)
  if not (cursor.snapshot == current_snapshot)
      then (do
        context ← map_err from (reference_context source cursor.next.line)
        fail_with
            (snapshot_conflict cursor.snapshot current_header context snapshot_conflict_message))
      else (do map_err from (validate_reference_position source cursor.next); ok cursor.next)

missing_file_message : Bytes → Bytes
missing_file_message path =
    codes "no file exists at " ++ path ++ codes "; use expect \"absent\" to create it"

-- the four cases of `(request.expect, current)`
unfoldable pub decide_write :
    WriteExpect → Option (Bytes × SnapshotId) → Bytes → Result ProtocolError Bool
unfolding missing_file_message
decide_write absent none path = ok true
decide_write absent (some (bytes, current)) path = do
  header ← map_err from (reference_header path current bytes)
  context ← map_err from (reference_context bytes 1)
  fail_with (already_exists header context already_exists_message)
decide_write (snapshot requested) none path = err (new not_found (missing_file_message path))
decide_write (snapshot requested) (some (bytes, current)) path =
    if not (requested == current)
    then (do
      header ← map_err from (reference_header path current bytes)
      context ← map_err from (reference_context bytes 1)
      fail_with (snapshot_conflict requested header context snapshot_conflict_message))
    else ok false

unfoldable pub validate_reference_write :
    Option (Bytes × SnapshotId) → WriteRequest → Result ProtocolError Bool
unfolding decide_write
validate_reference_write current request = do
  map_err from (validate_write request)
  decide_write request.expect current request.file_path
