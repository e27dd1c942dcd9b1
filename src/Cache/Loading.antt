-- ===== src/Cache/Loading.antt =====
-- `get_or_load` of src/cache.rs, for a loader that is a program.
use hashline_rs.Prelude.{
  ℕ, not, ◌&&◌, Option, none, some, if◌then◌else◌, Result, ok, err, Bytes, codes, bytes_eq,
  saturating_add,
}
use hashline_rs.Paths.{FilePath}
use hashline_rs.Os.{
  Task, ret, call, ◌>>=◌, caught, capture, metadata, open_file, descriptor_metadata, read_to_end,
  cache_insert, cache_get, cache_racy, cache_refresh, cache_claim, cache_clear, cell_lock, cell_set,
  cell_unlock, InflightState, pending, ready, Claim, resident, cell,
}
use hashline_rs.Snapshot.{Snapshot, SnapshotError, IoError, io, other_kind}
use hashline_rs.Snapshot.Stamp.{FileStamp, stamp_eq}
use hashline_rs.Tools.Failures.{snapshot_text}

-- `.ok()?` in a function that returns an option
abbrev pub or_none :
    {A : Type 0}
    → (A → Task SnapshotError (Option Snapshot))
    → Result IoError A
    → Task SnapshotError (Option Snapshot)
or_none next (ok a) = next a
or_none next (err e) = ret (ok none)

-- the comparison behind the second look at the descriptor
unfoldable pub confirm_resident :
    FilePath → Snapshot → FileStamp → Bytes → FileStamp → Task SnapshotError (Option Snapshot)
confirm_resident path snapshot entry_stamp bytes after =
    if not (stamp_eq after entry_stamp && bytes_eq bytes snapshot.text)
    then ret (ok none)
    else call (cache_refresh path entry_stamp after) (λ _. ret (ok (some snapshot)))

-- from the first look at the descriptor on
unfoldable pub reread_resident :
    FilePath → Snapshot → FileStamp → ℕ → FileStamp → Task SnapshotError (Option Snapshot)
unfolding confirm_resident
reread_resident path snapshot entry_stamp file before =
    if not (stamp_eq before entry_stamp)
    then ret (ok none)
    else call (read_to_end file (saturating_add entry_stamp.len 1)) (
        or_none λ bytes.
          call (descriptor_metadata file)
            (or_none λ m. capture m >>= confirm_resident path snapshot entry_stamp bytes))

unfoldable pub verify_racy_resident : FilePath → Task SnapshotError (Option Snapshot)
unfolding reread_resident
verify_racy_resident path = call (cache_racy path) (elim [
  | none ↦ ret (ok none)
  | some (snapshot, entry_stamp) ↦ call (open_file path) (
      or_none λ file.
        call (descriptor_metadata file)
          (or_none λ m. capture m >>= reread_resident path snapshot entry_stamp file))
])

-- the look at the cache under the stamp that the path shows
unfoldable pub try_resident : FilePath → Task SnapshotError (Option Snapshot)
try_resident path =
    call (metadata path)
      (or_none λ m. capture m >>= λ stamp. call (cache_get path stamp) (λ hit. ret (ok hit)))

unfoldable pub current_stamp : FilePath → Task SnapshotError (Option FileStamp)
current_stamp path =
    call (metadata path)
      (elim [ ok m ↦ (capture m >>= λ stamp. ret (ok (some stamp))) | err e ↦ ret (ok none) ])

-- the end of a load: its result goes to the cache, to the waiters and to the caller
unfoldable pub publish_loaded :
    FilePath → ℕ → Result SnapshotError Snapshot → Task SnapshotError Snapshot
publish_loaded path address (ok s) = call (cache_insert path s) λ _.
    call (cell_set address (ready (ok s)))
      λ _. call (cache_clear path) λ _. call (cell_unlock address) λ _. ret (ok s)
publish_loaded path address (err e) =
    call (cell_set address (ready (err (snapshot_text e))))
      λ _. call (cache_clear path) λ _. call (cell_unlock address) λ _. ret (err e)

-- the match on the state of the locked cell
unfoldable pub join_or_load :
    FilePath → Task SnapshotError Snapshot → ℕ → InflightState → Task SnapshotError Snapshot
unfolding publish_loaded
join_or_load path loader address (ready (ok s)) = call (cell_unlock address) λ _. ret (ok s)
join_or_load path loader address (ready (err text)) =
    call (cell_unlock address) λ _.
      ret (err (io (codes "load cached") path (record { error_kind = other_kind; text = text })))
join_or_load path loader address pending = caught loader >>= publish_loaded path address

-- what the claim gives
unfoldable pub follow_claim :
    FilePath → Task SnapshotError Snapshot → Claim → Task SnapshotError Snapshot
unfolding join_or_load
follow_claim path loader (resident s) = ret (ok s)
follow_claim path loader (cell address) =
    call (cell_lock address) (join_or_load path loader address)

-- the claim, behind the misses
unfoldable pub claim_load : FilePath → Task SnapshotError Snapshot → Task SnapshotError Snapshot
unfolding current_stamp follow_claim
claim_load path loader =
    current_stamp path >>= λ stamp. call (cache_claim path stamp) (follow_claim path loader)

-- `if let Some(hit) = .. { return Ok(hit) }`
abbrev pub or_else : Task SnapshotError Snapshot → Option Snapshot → Task SnapshotError Snapshot
or_else miss (some hit) = ret (ok hit)
or_else miss none = miss

unfoldable pub get_or_load : FilePath → Task SnapshotError Snapshot → Task SnapshotError Snapshot
unfolding try_resident verify_racy_resident claim_load
get_or_load path loader =
    try_resident path >>= or_else (verify_racy_resident path >>= or_else (claim_load path loader))
