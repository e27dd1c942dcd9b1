-- ===== src/Snapshot/Load.antt =====
-- `Snapshot::load` of src/snapshot.rs: a file is read through one descriptor, its metadata compared
-- before and after, and the whole tried twice.
pub mod Looks
pub mod Reading
pub mod Stable
pub mod Ending
pub mod Quiet
use hashline_rs.Prelude.{
  ℕ, zero, suc, ◌+◌, ◌*◌, Bool, true, false, not, ◌&&◌, ◌||◌, [], ◌++◌, Option, none, some, ◌==◌,
  if◌then◌else◌, Result, ok, err, map_err, Bytes, codes, length, bytes_eq,
}
use hashline_rs.Crates.{Crates}
use hashline_rs.Paths.{FilePath}
use hashline_rs.Os.{
  Program, ret, call, running, Task, ◌>>=◌, ◌>>◌, capture, open_file, descriptor_metadata,
  read_some, metadata, read_file, reserve,
}
use hashline_rs.Protocol.Errors.{validate_file_size}
use hashline_rs.Snapshot.{
  Snapshot, SnapshotError, io, contract, concurrent_modification, allocation, IoError, ErrorKind,
  not_found_kind, permission_denied_kind, already_exists_kind, interrupted_kind, other_kind,
  try_from_bytes, from_validated_with_stamp,
}
use hashline_rs.Snapshot.Stamp.{FileStamp, Metadata, stamp_eq}

abbrev pub read_buffer_bytes : ℕ
read_buffer_bytes = 64 * 1024

abbrev pub max_read_attempts : ℕ
max_read_attempts = 2

abbrev pub is_interrupted : ErrorKind → Bool
is_interrupted interrupted_kind = true
is_interrupted _ = false

abbrev pub is_not_found : ErrorKind → Bool
is_not_found not_found_kind = true
is_not_found _ = false

-- the failure says that there is no file
abbrev pub is_missing : SnapshotError → Bool
is_missing (io operation path source) = is_not_found source.error_kind
is_missing _ = false

-- `Snapshot::io_error` on the error of an answer
abbrev pub io_answer : {A : Type 0} → Bytes → FilePath → Result IoError A → Task SnapshotError A
io_answer operation path (ok a) = ret (ok a)
io_answer operation path (err e) = ret (err (io operation path e))

abbrev pub reserved : ℕ → Bool → Task SnapshotError (Unit {0})
reserved n true = ret (ok tt)
reserved n false = ret (err (allocation n))

-- The loop over `read`, in at most the given number of rounds.
unfoldable pub read_loop : ℕ → FilePath → ℕ → Bytes → Task SnapshotError Bytes
read_loop zero path file bytes = running
read_loop (suc rounds) path file bytes = call (read_some file read_buffer_bytes) λ answer.
    elim answer [
      | err e ↦
          let again = read_loop rounds path file bytes in
          if is_interrupted e.error_kind then again else ret (err (io (codes "read") path e))
      | ok chunk ↦
          let new_len = length bytes + length chunk in
          let more =
            (ret (map_err contract (validate_file_size new_len)) >>= λ _.
            call (reserve new_len) (reserved new_len) >>= λ _.
            read_loop rounds path file (bytes ++ chunk)) in
          if length chunk == 0 then ret (ok bytes) else more
    ]

-- the stamp of the path itself, `none` where it is gone
unfoldable pub path_stamp : FilePath → Task SnapshotError (Option FileStamp)
path_stamp path = call (metadata path) λ answer. elim answer [
  | ok m ↦ (capture m >>= λ stamp. ret (ok (some stamp)))
  | err e ↦
      if is_not_found e.error_kind
      then ret (ok none)
      else ret (err (io (codes "read path metadata for") path e))
]

abbrev pub same_stamp : Option FileStamp → FileStamp → Bool
same_stamp none stamp = false
same_stamp (some a) stamp = stamp_eq a stamp

-- a racy stamp is confirmed by reading the path again
unfoldable pub verify_racy : FilePath → FileStamp → Bytes → Task SnapshotError Bool
verify_racy path stamp bytes =
    if stamp.racy
    then (call (read_file path) λ answer. elim answer [
      | ok reread ↦ ret (ok (bytes_eq reread bytes))
      | err e ↦
          if is_not_found e.error_kind
          then ret (ok false)
          else ret (err (io (codes "verify racy read of") path e))
    ])
    else ret (ok true)

-- behind the loop
unfoldable pub finish_candidate :
    Crates → FilePath → ℕ → FileStamp → Bytes → Task SnapshotError (Option (Bytes × FileStamp))
unfolding path_stamp verify_racy
finish_candidate c path file before bytes = do
  final ← call (descriptor_metadata file) (io_answer (codes "read final metadata for") path)
  after ← capture final
  current ← path_stamp path
  if not (stamp_eq before after)
        || not (same_stamp current after)
        || not (length bytes == after.len)
      then ret (ok none)
      else do
        confirmed ← verify_racy path after bytes
        if not confirmed then ret (ok none) else do
          text ← ret (map_err contract (try_from_bytes c bytes))
          ret (ok (some (text, after)))

unfoldable pub read_candidate :
    Crates → ℕ → FilePath → Task SnapshotError (Option (Bytes × FileStamp))
unfolding read_loop finish_candidate
read_candidate c rounds path = do
  file ← call (open_file path) (io_answer (codes "open") path)
  initial ← call (descriptor_metadata file) (io_answer (codes "read initial metadata for") path)
  before ← capture initial
  ret (map_err contract (validate_file_size before.len))
  call (reserve before.len) (reserved before.len)
  bytes ← read_loop rounds path file []
  finish_candidate c path file before bytes

-- the loop over the attempts left
unfoldable pub load_attempts : Crates → ℕ → FilePath → ℕ → Task SnapshotError Snapshot
unfolding read_candidate
load_attempts c rounds path zero = ret (err (concurrent_modification path))
load_attempts c rounds path (suc attempts) = read_candidate c rounds path >>= λ found. elim found [
  | none ↦ load_attempts c rounds path attempts
  | some (text, stamp) ↦ ret (from_validated_with_stamp c text (some stamp))
]

unfoldable pub load : Crates → ℕ → FilePath → Task SnapshotError Snapshot
unfolding load_attempts
load c rounds path = load_attempts c rounds path max_read_attempts
