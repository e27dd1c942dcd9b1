-- ===== src/Persist/Create.antt =====
-- What every run of `atomic_create` of src/persist.rs does to the files.
use hashline_rs.Prelude.{refl, [], Option, none, some, Result, ok, err, Bytes}
use hashline_rs.Crates.{Crates}
use hashline_rs.Paths.{FilePath, path_eq_refl}
use hashline_rs.Os.{◌>>=◌}
use hashline_rs.Os.Always.{Log, Always, ends, asks, Then, Always->>=, Always-mono, Always-if}
use hashline_rs.Snapshot.Stamp.{FileStamp}
use hashline_rs.Persist.{
  Durability, PersistError, write_unique_temp, ensure_parent, directory_of, link_in_place,
  create_body, atomic_create, is_already_exists,
}
use hashline_rs.Persist.Effects.{Stage, linked}
use hashline_rs.Persist.Temp.{Ready, write_unique_temp_lem}
use hashline_rs.Persist.Guard.{Fresh, ensure_parent_lem, locked_lem}
use hashline_rs.Persist.Replace.{Placed, settled_lem}

module _ (c : Crates) (path : FilePath) where
  abbrev Created : Bytes → Durability → Log → Result PersistError (Option FileStamp) → Type 0
  Created bytes durability = Placed c path none (linked path (some bytes, durability))

  link_in_place_lem :
      (bytes : Bytes) (durability : Durability) (l : Log)
      (r : Result PersistError (FilePath × FileStamp))
      → Ready c path none bytes durability l r
      → Then
          (Created bytes durability)
          (λ (temp, stamp). link_in_place temp path stamp durability)
          l
          r
  unfolding link_in_place
  link_in_place_lem bytes durability l (err e) s = s
  link_in_place_lem bytes durability l (ok (temp, stamp)) (file, (g, o, r)) = asks (elim [
    | err e ↦ asks (λ a.
        Always-if (is_already_exists e.error_kind)
          (λ _. ends ((tt, (tt, g)), rw (o, path_eq_refl temp) refl, r))
          (λ _. ends ((tt, (tt, g)), rw (o, path_eq_refl temp) refl, r)))
    | ok done ↦ asks (λ a.
        settled_lem c path (linked path (some bytes, durability)) none stamp durability
          ((tt, (tt, g)), rw (o, path_eq_refl temp) refl, rw (o, path_eq_refl temp, r) refl))
  ])

  behind_parent :
      (bytes : Bytes) (durability : Durability) (l : Log) (r : Result PersistError (Unit {0}))
      → Fresh c path none l r
      → Then
          (Created bytes durability)
          (λ _. write_unique_temp (directory_of path) path bytes durability >>= λ (temp, stamp).
            link_in_place temp path stamp durability)
          l
          r
  behind_parent bytes durability l (err e) s = s
  behind_parent bytes durability l (ok done) s =
      Always->>= (Created bytes durability)
        (write_unique_temp (directory_of path) path bytes durability) _
        (Always-mono (write_unique_temp (directory_of path) path bytes durability)
          (link_in_place_lem bytes durability)
          (write_unique_temp_lem c path none bytes durability (directory_of path) s))

  create_body_lem :
      (bytes : Bytes) (durability : Durability) {log : Log}
      → Stage c path none [] [] log
      → Always (Created bytes durability) log (create_body path bytes durability)
  unfolding create_body
  create_body_lem bytes durability s =
      Always->>= (Created bytes durability) (ensure_parent path) _ (
        Always-mono (ensure_parent path) (behind_parent bytes durability)
          (ensure_parent_lem c path none s))

  -- the same behind calls that left the files as they were
  pub atomic_create_lem :
      (bytes : Bytes) (durability : Durability) {log : Log}
      → Stage c path none [] [] log
      → Always (Created bytes durability) log (atomic_create path bytes durability)
  unfolding atomic_create
  atomic_create_lem bytes durability (g, o, r) =
      locked_lem c path none (linked path (some bytes, durability))
        (create_body path bytes durability) (create_body_lem bytes durability ((tt, g), o, r))

  -- Whatever the answers are: on success one hard link put at the path a file to which exactly the
  -- given bytes were written, synced as the durability asks, and nothing else came to any path, by a
  -- rename or by a link; on failure nothing did. Every created file was asked to be removed.
  pub atomic_create-Placed :
      (bytes : Bytes) (durability : Durability)
      → Always
          (Placed c path none (linked path (some bytes, durability)))
          []
          (atomic_create path bytes durability)
  atomic_create-Placed bytes durability = atomic_create_lem bytes durability (tt, refl, refl)
