-- ===== src/Tools/Edit.antt =====
-- `run_blocking` of src/edit/mod.rs: a file is loaded, the edits are applied to it, and the result
-- is put in its place.
pub mod Success
pub mod Outcome
pub mod Requested
pub mod Ending
use hashline_rs.Prelude.{
  ℕ, Bool, not, [], ◌++◌, Option, none, some, ◌==◌, if◌then◌else◌, Result, ok, err, map_err, List,
  length, Bytes, codes,
}
use hashline_rs.Crates.{Crates}
use hashline_rs.Paths.{FilePath, parent, display}
use hashline_rs.Os.{Task, ret, call, ◌>>=◌, ◌>>◌, caught, create_dir_all}
use hashline_rs.Protocol.Codec.SnapshotId.{SnapshotId}
use hashline_rs.Protocol.Errors
use hashline_rs.Protocol.Errors.{
  ProtocolError, ContractError, ContextLine, from, new, snapshot_conflict,
}
use hashline_rs.Protocol.Requests.{EditRequest, validate_edit}
use hashline_rs.Protocol.Context.{reference_header, reference_context}
use hashline_rs.Protocol.Versioned.{
  fail_with, snapshot_conflict_message, apply_versioned_reference_edits,
}
use hashline_rs.Snapshot.{Snapshot, from_bytes, from_validated_bytes}
use hashline_rs.Snapshot.Stamp.{FileStamp}
use hashline_rs.Snapshot.Load.{load}
use hashline_rs.Engine.{apply_edits_fast}
use hashline_rs.Persist.{Durability, ExpectedDestination, atomic_write}
use hashline_rs.Workspace.{Workspace, resolve_workspace_path}
use hashline_rs.Snapshot.Load.{is_missing}
use hashline_rs.Tools.Failures.{
  snapshot_protocol_error, persist_protocol_error, map_failure, remember,
}

pub record EditSuccess : Type 0 where
  pub path : Bytes
  pub previous_snapshot : SnapshotId
  pub snapshot : SnapshotId
  pub applied : ℕ
  pub bytes : ℕ
  pub lines : ℕ

-- the stamp of the base with its identity
abbrev pub destination_of : Option FileStamp → SnapshotId → Option ExpectedDestination
destination_of none previous = none
destination_of (some stamp) previous = some (record { stamp = stamp; base_id = previous })

-- the answer for a persisted snapshot
abbrev pub success_of : EditRequest → SnapshotId → Snapshot → EditSuccess
success_of input previous s = record {
  path = input.file_path;
  previous_snapshot = previous;
  snapshot = s.id;
  applied = length input.edits;
  bytes = s.byte_len;
  lines = s.line_count;
}

unfoldable pub publish :
    Crates
    → FilePath
    → EditRequest
    → SnapshotId
    → Bytes
    → Option FileStamp
    → Durability
    → Task ProtocolError EditSuccess
publish c path input previous applied expected durability = do
  stamp ←
      map_failure persist_protocol_error
        (atomic_write c path applied (destination_of expected previous) durability)
  new_snapshot ←
      ret (map_err (snapshot_protocol_error (codes "edit") path) (from_validated_bytes c applied))
  remember path new_snapshot stamp
  ret (ok (success_of input previous new_snapshot))

-- `if let Some(parent) = path.parent() && let Err(e) = create_dir_all(parent)`
abbrev pub make_parent : FilePath → Option FilePath → Task ProtocolError (Unit {0})
make_parent path none = ret (ok tt)
make_parent path (some directory) = call (create_dir_all directory) (elim [
  | ok made ↦ ret (ok tt)
  | err e ↦ ret (
      err (
        new Errors.io (
          codes "Failed to create parent directory for "
          ++ (display path ++ (codes ": " ++ e.text)))))
])

-- `unwrap_or_default`
abbrev or_empty : Result ContractError (List ContextLine) → List ContextLine
or_empty (ok context) = context
or_empty (err e) = []

-- the conflict of a request that names another identity than that of the empty text
unfoldable pub empty_conflict : EditRequest → SnapshotId → Result ProtocolError Bytes
empty_conflict input id = header_then (map_err from (reference_header input.file_path id []))
  where
    header_then : Result ProtocolError Errors.SnapshotHeader → Result ProtocolError Bytes
    header_then (err e) = err e
    header_then (ok header) = fail_with (
        snapshot_conflict input.snapshot header (or_empty (reference_context [] 1))
          snapshot_conflict_message)

unfoldable pub create_new_file :
    Crates → FilePath → EditRequest → Durability → Task ProtocolError EditSuccess
unfolding publish empty_conflict
create_new_file c path input durability = do
  empty ← ret (map_err (snapshot_protocol_error (codes "edit") path) (from_bytes c []))
  applied ← ret (
      if not (input.snapshot == empty.id)
      then empty_conflict input empty.id
      else apply_versioned_reference_edits [] empty.id input)
  make_parent path (parent path)
  publish c path input empty.id applied none durability

unfoldable pub run_blocking :
    Crates → ℕ → FilePath → EditRequest → Durability → Task ProtocolError EditSuccess
unfolding create_new_file publish
run_blocking c rounds path input durability = caught (load c rounds path) >>= λ loaded.
    elim loaded [
      | ok snapshot ↦
          (ret (apply_edits_fast c snapshot input) >>= λ applied.
          publish c path input snapshot.id applied snapshot.stamp durability)
      | err e ↦
          let created = create_new_file c path input durability in
          if is_missing e
          then created
          else ret (err (snapshot_protocol_error (codes "edit") path e))
    ]

-- `edit::run`: the hop to a blocking thread has no other effect than to run the pipeline there
unfoldable pub run : Crates → ℕ → Workspace → EditRequest → Task ProtocolError EditSuccess
unfolding run_blocking validate_edit
run c rounds w input = do
  ret (map_err from (validate_edit input))
  path ← resolve_workspace_path w input.file_path
  run_blocking c rounds path input w.durability
