-- ===== src/Tools/Write.antt =====
-- `run_blocking` of src/write.rs: a file is created or replaced, under a precondition on what is there.
pub mod Success
pub mod Outcome
pub mod Requested
pub mod Ending
use hashline_rs.Prelude.{
  ℕ, Bool, true, false, ◌++◌, Option, none, some, if◌then◌else◌, Result, ok, err, map_err, Bytes,
  codes,
}
use hashline_rs.Crates.{Crates}
use hashline_rs.Paths.{FilePath, display}
use hashline_rs.Os.{Task, ret, ◌>>=◌, ◌>>◌, caught}
use hashline_rs.Protocol.Codec.SnapshotId.{SnapshotId}
use hashline_rs.Protocol.Errors
use hashline_rs.Protocol.Errors.{ProtocolError, from, new}
use hashline_rs.Protocol.Requests.{WriteRequest, validate_write}
use hashline_rs.Protocol.Versioned.{validate_reference_write}
use hashline_rs.Snapshot.{Snapshot, SnapshotError, from_validated_bytes}
use hashline_rs.Snapshot.Stamp.{FileStamp}
use hashline_rs.Snapshot.Load.{load}
use hashline_rs.Persist.{
  Durability, PersistError, destination_exists, ExpectedDestination, atomic_write, atomic_create,
}
use hashline_rs.Workspace.{Workspace, resolve_workspace_path}
use hashline_rs.Snapshot.Load.{is_missing}
use hashline_rs.Tools.Failures.{snapshot_protocol_error, persist_protocol_error, remember}
use hashline_rs.Tools.Edit.{destination_of}

pub record WriteSuccess : Type 0 where
  pub path : Bytes
  pub snapshot : SnapshotId
  pub bytes : ℕ
  pub lines : ℕ
  pub created : Bool

-- the match on the first load: `none` where there is no file
abbrev pub current_of :
    FilePath → Result SnapshotError Snapshot → Result ProtocolError (Option Snapshot)
current_of path (ok s) = ok (some s)
current_of path (err e) =
    if is_missing e then ok none else err (snapshot_protocol_error (codes "write") path e)

-- `current.as_ref().map(|snapshot| (snapshot.bytes(), snapshot.id()))`
abbrev pub state_of : Option Snapshot → Option (Bytes × SnapshotId)
state_of none = none
state_of (some s) = some (s.text, s.id)

abbrev pub expected_of : Option Snapshot → Option ExpectedDestination
expected_of none = none
expected_of (some s) = destination_of s.stamp s.id

-- the match on the load behind a lost race
abbrev race_error : FilePath → WriteRequest → Result SnapshotError Snapshot → ProtocolError
race_error path input (ok s) = decided (validate_reference_write (some (s.text, s.id)) input)
  where
    decided : Result ProtocolError Bool → ProtocolError
    decided (ok created) = new Errors.io (
        codes "Failed to write "
        ++ (display path
            ++ codes ": lost a create race but the destination no longer conflicts; retry"))
    decided (err e) = e
race_error path input (err e) =
    if is_missing e
    then new Errors.io (
        codes "Failed to write "
        ++ (display path ++ codes ": destination appeared and vanished during create; retry"))
    else snapshot_protocol_error (codes "write") path e

unfoldable pub lose_create_race :
    {A : Type 0} → Crates → ℕ → FilePath → WriteRequest → Task ProtocolError A
lose_create_race c rounds path input =
    caught (load c rounds path) >>= λ loaded. ret (err (race_error path input loaded))

-- the match on `persist_result`
unfoldable pub persisted_or :
    Crates
    → ℕ
    → FilePath
    → WriteRequest
    → Result PersistError (Option FileStamp)
    → Task ProtocolError (Option FileStamp)
unfolding lose_create_race
persisted_or c rounds path input (ok stamp) = ret (ok stamp)
persisted_or c rounds path input (err (destination_exists p)) = lose_create_race c rounds path input
persisted_or c rounds path input (err e) = ret (err (persist_protocol_error e))

abbrev pub written_of : WriteRequest → Bool → Snapshot → WriteSuccess
written_of input created s = record {
  path = input.file_path;
  snapshot = s.id;
  bytes = s.byte_len;
  lines = s.line_count;
  created = created;
}

-- `persist_result`
unfoldable pub persist_content :
    Crates
    → FilePath
    → WriteRequest
    → Option Snapshot
    → Durability
    → Bool
    → Task PersistError (Option FileStamp)
persist_content c path input current durability true = atomic_create path input.content durability
persist_content c path input current durability false =
    atomic_write c path input.content (expected_of current) durability

unfoldable pub run_blocking :
    Crates → ℕ → FilePath → WriteRequest → Durability → Task ProtocolError WriteSuccess
unfolding persisted_or persist_content
run_blocking c rounds path input durability = caught (load c rounds path) >>= λ loaded. do
  current ← ret (current_of path loaded)
  created ← ret (validate_reference_write (state_of current) input)
  result ← caught (persist_content c path input current durability created)
  stamp ← persisted_or c rounds path input result
  persisted ← ret (
      map_err (snapshot_protocol_error (codes "write") path) (from_validated_bytes c input.content))
  remember path persisted stamp
  ret (ok (written_of input created persisted))

-- `write::run`, with the hop to a blocking thread as in `edit::run`
unfoldable pub run : Crates → ℕ → Workspace → WriteRequest → Task ProtocolError WriteSuccess
unfolding run_blocking validate_write
run c rounds w input = do
  ret (map_err from (validate_write input))
  path ← resolve_workspace_path w input.file_path
  run_blocking c rounds path input w.durability
