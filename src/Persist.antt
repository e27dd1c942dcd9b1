-- ===== src/Persist.antt =====
-- src/persist.rs: a file is written to a temporary file beside its destination, and put in place by
-- one rename, or one hard link for a new file.
pub mod Effects
pub mod Temp
pub mod Replace
pub mod Guard
pub mod Create
pub mod Ending
use hashline_rs.Prelude.{
  ℕ, Bool, true, false, not, [], ◌∷◌, ◌++◌, Option, none, some, ◌+◌, ◌≡◌, refl, leb, ◌==◌,
  if◌then◌else◌, Result, ok, err, Bytes, codes, u64_max, saturating_add,
}
use hashline_rs.Crates.{Crates}
use hashline_rs.Paths.{FilePath, new, parent, join}
use hashline_rs.Os.{
  Call, Program, ret, call, Task, ◌>>=◌, ◌>>◌, caught, capture, open_file, descriptor_metadata,
  read_to_end, write_all, sync_all, barrier_sync, create_new, metadata, create_dir_all, rename,
  hard_link, remove_file, fsync_parent, now, process_id, temp_counter, lock_path, unlock_path,
}
use hashline_rs.Protocol.Codec.Decimal.{decimal}
use hashline_rs.Protocol.Codec.SnapshotId.{SnapshotId}
use hashline_rs.Snapshot.{
  IoError, ErrorKind, not_found_kind, permission_denied_kind, already_exists_kind, interrupted_kind,
  other_kind, content_id,
}
use hashline_rs.Snapshot.Load.{is_not_found}
use hashline_rs.Snapshot.Stamp.{FileStamp, Metadata, stamp_eq, confirmed_after_rename}

pub data Durability : Type 0 where
  full barrier unsynced : Durability

pub data PersistError : Type 0 where
  io : Bytes → FilePath → IoError → PersistError
  destination_changed destination_exists : FilePath → PersistError

pub record ExpectedDestination : Type 0 where
  pub stamp : FileStamp
  pub base_id : SnapshotId

-- `io_err` on the error of an answer
abbrev pub io_answer : {A : Type 0} → Bytes → FilePath → Result IoError A → Task PersistError A
io_answer operation path (ok a) = ret (ok a)
io_answer operation path (err e) = ret (err (io operation path e))

-- `let _ = fs::remove_file(temp)` before an error
abbrev pub discard : {A : Type 0} → FilePath → PersistError → Task PersistError A
discard temp e = call (remove_file temp) (λ _. ret (err e))

-- `unique_temp_name`; a clock before the epoch counts as the epoch
unfoldable pub temp_name : ℕ → ℕ → ℕ → Bytes
temp_name process discriminator nanos =
    codes ".hashline-"
    ++ (decimal process ++ (b'-' ∷ decimal discriminator ++ (b'-' ∷ decimal nanos ++ codes ".tmp")))

unfoldable pub sync_temp : Durability → FilePath → ℕ → Task PersistError (Unit {0})
sync_temp full path file = call (sync_all file) (io_answer (codes "fsync temp for") path)
sync_temp barrier path file =
    call (barrier_sync file) (io_answer (codes "barrier-sync temp for") path)
sync_temp unsynced path file = ret (ok tt)

-- the closure `write_temp`
unfoldable pub write_temp : FilePath → FilePath → Bytes → Durability → Task PersistError FileStamp
unfolding sync_temp
write_temp temp path bytes durability = do
  file ← call (create_new temp) (io_answer (codes "create temp for") path)
  call (write_all file bytes) (io_answer (codes "write temp for") path)
  sync_temp durability path file
  m ← call (descriptor_metadata file) (io_answer (codes "stat temp for") path)
  capture m

unfoldable pub write_unique_temp :
    FilePath → FilePath → Bytes → Durability → Task PersistError (FilePath × FileStamp)
unfolding write_temp temp_name
write_unique_temp directory path bytes durability = call now λ nanos.
    call temp_counter λ discriminator. call process_id λ process.
      let temp = join directory (new (temp_name process discriminator nanos)) in
      caught (write_temp temp path bytes durability) >>= λ written. elim written [
        | ok stamp ↦ ret (ok (temp, stamp))
        | err e ↦ discard temp e
      ]

-- the content tiebreak of a racy stamp: whether the destination is unchanged
unfoldable pub same_content :
    Crates → FilePath → FilePath → ExpectedDestination → Task PersistError Bool
unfolding content_id
same_content c temp path expected = call (open_file path) λ opened. elim opened [
  | err e ↦
      if is_not_found e.error_kind
      then ret (ok false)
      else discard temp (io (codes "open destination for") path e)
  | ok file ↦ call (read_to_end file (saturating_add expected.stamp.len 1)) λ read. elim read [
    | err e ↦ discard temp (io (codes "read destination for") path e)
    | ok bytes ↦ ret (ok (content_id c bytes == expected.base_id))
  ]
]

-- the look at the destination immediately before the rename
unfoldable pub check_destination :
    Crates → FilePath → FilePath → Option ExpectedDestination → Task PersistError (Unit {0})
unfolding same_content
check_destination c temp path none = ret (ok tt)
check_destination c temp path (some expected) = call (metadata path) λ found. elim found [
  | err e ↦
      if is_not_found e.error_kind
      then discard temp (destination_changed path)
      else discard temp (io (codes "stat destination") path e)
  | ok m ↦
      (capture m >>= λ current.
      if not (stamp_eq current expected.stamp)
      then discard temp (destination_changed path)
      else if expected.stamp.racy
      then (same_content c temp path expected >>= λ unchanged.
          if unchanged then ret (ok tt) else discard temp (destination_changed path))
      else ret (ok tt))
]

-- `fsync_parent` under full durability
abbrev pub settle : Durability → FilePath → Task PersistError (Unit {0})
settle full directory = call (fsync_parent directory) (λ _. ret (ok tt))
settle barrier directory = ret (ok tt)
settle unsynced directory = ret (ok tt)

-- `confirm_stamp`
unfoldable pub confirm_stamp : FilePath → FileStamp → Task PersistError (Option FileStamp)
confirm_stamp path stamp = call (metadata path) λ found. elim found [
  | err e ↦ ret (ok none)
  | ok m ↦ (capture m >>= λ current. ret (ok (confirmed_after_rename stamp current)))
]

unfoldable pub directory_of : FilePath → FilePath
directory_of path = elim (parent path) [ none ↦ new (codes ".") | some directory ↦ directory ]

-- `if let Some(parent) = path.parent() { create_dir_all(parent)? }`
abbrev pub make_directory : FilePath → Option FilePath → Task PersistError (Unit {0})
make_directory path none = ret (ok tt)
make_directory path (some directory) =
    call (create_dir_all directory) (io_answer (codes "create parent of") path)

unfoldable pub ensure_parent : FilePath → Task PersistError (Unit {0})
ensure_parent path = make_directory path (parent path)

-- the rename at the end of `atomic_write`
unfoldable pub put_in_place :
    FilePath → FilePath → FileStamp → Durability → Task PersistError (Option FileStamp)
unfolding confirm_stamp
put_in_place temp path stamp durability = call (rename temp path) λ renamed. elim renamed [
  | err e ↦ discard temp (io (codes "rename into") path e)
  | ok done ↦ (settle durability (directory_of path) >>= λ _. confirm_stamp path stamp)
]

-- The lock of the path is held to the end, whatever the result.
abbrev pub locked : {A : Type 0} → FilePath → Task PersistError A → Task PersistError A
locked path body =
    call (lock_path path) λ _. caught body >>= λ result. call (unlock_path path) (λ _. ret result)

write_body :
    Crates
    → FilePath
    → Bytes
    → Option ExpectedDestination
    → Durability
    → Task PersistError (Option FileStamp)
unfolding ensure_parent directory_of write_unique_temp check_destination put_in_place
write_body c path bytes expected durability = do
  ensure_parent path
  (temp, stamp) ← write_unique_temp (directory_of path) path bytes durability
  check_destination c temp path expected
  put_in_place temp path stamp durability

unfoldable pub atomic_write :
    Crates
    → FilePath
    → Bytes
    → Option ExpectedDestination
    → Durability
    → Task PersistError (Option FileStamp)
unfolding write_body
atomic_write c path bytes expected durability =
    locked path (write_body c path bytes expected durability)

abbrev pub is_already_exists : ErrorKind → Bool
is_already_exists already_exists_kind = true
is_already_exists _ = false

-- the hard link at the end of `atomic_create`
unfoldable pub link_in_place :
    FilePath → FilePath → FileStamp → Durability → Task PersistError (Option FileStamp)
unfolding confirm_stamp
link_in_place temp path stamp durability = call (hard_link temp path) λ linked.
    call (remove_file temp) λ _. elim linked [
      | err e ↦
          if is_already_exists e.error_kind
          then ret (err (destination_exists path))
          else ret (err (io (codes "link into") path e))
      | ok done ↦ (settle durability (directory_of path) >>= λ _. confirm_stamp path stamp)
    ]

create_body : FilePath → Bytes → Durability → Task PersistError (Option FileStamp)
unfolding ensure_parent directory_of write_unique_temp link_in_place
create_body path bytes durability = do
  ensure_parent path
  (temp, stamp) ← write_unique_temp (directory_of path) path bytes durability
  link_in_place temp path stamp durability

unfoldable pub atomic_create : FilePath → Bytes → Durability → Task PersistError (Option FileStamp)
unfolding create_body
atomic_create path bytes durability = locked path (create_body path bytes durability)
