-- ===== src/Persist/Guard.antt =====
-- What every run of `atomic_write` of src/persist.rs does to the files, whatever the operating system
-- and the other processes answer.
use hashline_rs.Prelude.{refl, [], ◌∷◌, Option, none, some, Result, ok, err, Bytes}
use hashline_rs.Crates.{Crates}
use hashline_rs.Paths.{FilePath, parent}
use hashline_rs.Os.{Task, ret, call, ◌>>=◌, caught, lock_path, unlock_path}
use hashline_rs.Os.Always.{
  event, Log, Always, ends, asks, Then, Always->>=, Always-mono, Always-caught,
}
use hashline_rs.Snapshot.Stamp.{FileStamp}
use hashline_rs.Persist.{
  Durability, PersistError, ExpectedDestination, write_unique_temp, check_destination,
  ensure_parent, make_directory, directory_of, put_in_place, locked, write_body, atomic_write,
}
use hashline_rs.Persist.Effects.{Stage, Placement, renamed}
use hashline_rs.Persist.Temp.{Ready, write_unique_temp_lem}
use hashline_rs.Persist.Replace.{Placed, check_destination_lem, put_in_place_lem}

module _ (c : Crates) (path : FilePath) (expected : Option ExpectedDestination) where
  behind_temp :
      (bytes : Bytes) (durability : Durability) (l : Log)
      (r : Result PersistError (FilePath × FileStamp))
      → Ready c path expected bytes durability l r
      → Then
          (Placed c path expected (renamed path (some bytes, durability)))
          (λ (temp, stamp).
            check_destination c temp path expected >>= λ _. put_in_place temp path stamp durability)
          l
          r
  behind_temp bytes durability l (err e) s = s
  behind_temp bytes durability l (ok (temp, stamp)) (file, s) =
      Always->>= (Placed c path expected (renamed path (some bytes, durability))) _ _ (
        Always-mono (check_destination c temp path expected)
          (put_in_place_lem c path temp file (some bytes) durability expected stamp durability)
          (check_destination_lem c path temp file (some bytes) durability expected s))

  -- the parent directory made, nothing has happened to the files
  abbrev pub Fresh : Log → Result PersistError (Unit {0}) → Type 0
  Fresh log r = Stage c path expected [] [] log

  make_directory_lem :
      (directory : Option FilePath) {log : Log}
      → Stage c path expected [] [] log
      → Always Fresh log (make_directory path directory)
  make_directory_lem none s = ends s
  make_directory_lem (some directory) (g, o, r) =
      asks (elim [ err e ↦ ends ((tt, g), o, r) | ok done ↦ ends ((tt, g), o, r) ])

  pub ensure_parent_lem :
      {log : Log} → Stage c path expected [] [] log → Always Fresh log (ensure_parent path)
  unfolding ensure_parent
  ensure_parent_lem s = make_directory_lem (parent path) s

  behind_parent :
      (bytes : Bytes) (durability : Durability) (l : Log) (r : Result PersistError (Unit {0}))
      → Fresh l r
      → Then
          (Placed c path expected (renamed path (some bytes, durability)))
          (λ _. write_unique_temp (directory_of path) path bytes durability >>= λ (temp, stamp).
            check_destination c temp path expected >>= λ _. put_in_place temp path stamp durability)
          l
          r
  behind_parent bytes durability l (err e) s = s
  behind_parent bytes durability l (ok done) s =
      Always->>= (Placed c path expected (renamed path (some bytes, durability)))
        (write_unique_temp (directory_of path) path bytes durability) _
        (Always-mono (write_unique_temp (directory_of path) path bytes durability)
          (behind_temp bytes durability)
          (write_unique_temp_lem c path expected bytes durability (directory_of path) s))

  write_body_lem :
      (bytes : Bytes) (durability : Durability) {log : Log}
      → Stage c path expected [] [] log
      → Always
          (Placed c path expected (renamed path (some bytes, durability)))
          log
          (write_body c path bytes expected durability)
  unfolding write_body
  write_body_lem bytes durability s =
      Always->>= (Placed c path expected (renamed path (some bytes, durability)))
        (ensure_parent path) _
        (Always-mono (ensure_parent path) (behind_parent bytes durability) (ensure_parent_lem s))

  unlocked_lem :
      (how : Placement) (l : Log) (r : Result PersistError (Option FileStamp))
      → Placed c path expected how l r
      → Always (Placed c path expected how) l (call (unlock_path path) (λ _. ret r))
  unlocked_lem how l (ok stamp) (g, o, r) = asks (λ a. ends ((tt, g), o, r))
  unlocked_lem how l (err e) (g, o, r) = asks (λ a. ends ((tt, g), o, r))

  pub locked_lem :
      (how : Placement) (body : Task PersistError (Option FileStamp)) {log : Log}
      → Always (Placed c path expected how) (event (lock_path path) tt ∷ log) body
      → Always (Placed c path expected how) log (locked path body)
  locked_lem how body h = asks (λ a.
      Always->>= (Placed c path expected how) (caught body) _
        (Always-caught body (Always-mono body (unlocked_lem how) h)))

  -- the same behind calls that left the files as they were
  pub atomic_write_lem :
      (bytes : Bytes) (durability : Durability) {log : Log}
      → Stage c path expected [] [] log
      → Always
          (Placed c path expected (renamed path (some bytes, durability)))
          log
          (atomic_write c path bytes expected durability)
  unfolding atomic_write
  atomic_write_lem bytes durability (g, o, r) =
      locked_lem (renamed path (some bytes, durability))
        (write_body c path bytes expected durability)
        (write_body_lem bytes durability ((tt, g), o, r))

  -- Whatever the answers are: every rename comes right behind a look at the destination that found
  -- the expected stamp, and under a racy stamp the expected content. On success one rename put at
  -- the path a file to which exactly the given bytes were written, synced as the durability asks, and
  -- nothing else came to any path; on failure nothing did. Every created file was renamed or asked to
  -- be removed.
  pub atomic_write-Placed :
      (bytes : Bytes) (durability : Durability)
      → Always
          (Placed c path expected (renamed path (some bytes, durability)))
          []
          (atomic_write c path bytes expected durability)
  atomic_write-Placed bytes durability = atomic_write_lem bytes durability (tt, refl, refl)
