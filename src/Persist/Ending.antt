-- ===== src/Persist/Ending.antt =====
-- `atomic_write` and `atomic_create` of src/persist.rs end.
use hashline_rs.Prelude.{ℕ, refl, not, Option, none, some, ok, err, Bytes}
use hashline_rs.Crates.{Crates}
use hashline_rs.Paths.{FilePath, parent, join, new}
use hashline_rs.Os.{Task, caught}
use hashline_rs.Os.Ending.{Ends, done, plain, Ends->>=, Ends-if, Ends-caught}
use hashline_rs.Snapshot.Load.{is_not_found}
use hashline_rs.Snapshot.Stamp.{FileStamp, stamp_eq, from_metadata}
use hashline_rs.Persist.{
  Durability, full, barrier, unsynced, PersistError, ExpectedDestination, discard, temp_name,
  sync_temp, write_temp, write_unique_temp, same_content, check_destination, settle, confirm_stamp,
  directory_of, make_directory, ensure_parent, put_in_place, locked, write_body, atomic_write,
  is_already_exists, link_in_place, create_body, atomic_create,
}

module _ {n : ℕ} where
  discard-Ends : {A : Type 0} (temp : FilePath) (e : PersistError) → Ends n (discard {A = A} temp e)
  discard-Ends temp e = plain (λ _. refl) (λ _. done)

  confirm_stamp-Ends : (path : FilePath) (stamp : FileStamp) → Ends n (confirm_stamp path stamp)
  unfolding confirm_stamp
  confirm_stamp-Ends path stamp =
      plain (λ _. refl) (elim [ err e ↦ done | ok m ↦ plain (λ _. refl) (λ _. done) ])

  settle-Ends :
      (durability : Durability) (directory : FilePath) → Ends n (settle durability directory)
  settle-Ends full directory = plain (λ _. refl) (λ _. done)
  settle-Ends barrier directory = done
  settle-Ends unsynced directory = done

  sync_temp-Ends :
      (durability : Durability) (path : FilePath) (file : ℕ)
      → Ends n (sync_temp durability path file)
  unfolding sync_temp
  sync_temp-Ends full path file = plain (λ _. refl) (elim [ err e ↦ done | ok a ↦ done ])
  sync_temp-Ends barrier path file = plain (λ _. refl) (elim [ err e ↦ done | ok a ↦ done ])
  sync_temp-Ends unsynced path file = done

  make_directory-Ends :
      (path : FilePath) (directory : Option FilePath) → Ends n (make_directory path directory)
  make_directory-Ends path none = done
  make_directory-Ends path (some directory) =
      plain (λ _. refl) (elim [ err e ↦ done | ok a ↦ done ])

  same_content-Ends :
      (c : Crates) (temp path : FilePath) (e : ExpectedDestination)
      → Ends n (same_content c temp path e)
  unfolding same_content
  same_content-Ends c temp path e =
      plain (λ _. refl)
        (elim [
          | err x ↦ Ends-if (is_not_found x.error_kind) (λ _. done) (λ _. discard-Ends temp _)
          | ok file ↦ plain (λ _. refl) (elim [ err x ↦ discard-Ends temp _ | ok bytes ↦ done ])
        ])

module _ (c : Crates) (path : FilePath) where
  write_temp-Ends :
      (n : ℕ) (temp : FilePath) (bytes : Bytes) (durability : Durability)
      → Ends n (write_temp temp path bytes durability)
  unfolding write_temp
  write_temp-Ends n temp bytes durability =
      plain (λ _. refl)
        (elim [
          | err e ↦ done
          | ok file ↦
              plain (λ _. refl)
                (elim [
                  | err e ↦ done
                  | ok a ↦ Ends->>= _ _ (sync_temp-Ends durability path file) (λ k le _.
                      plain (λ _. refl)
                        (elim [ err e ↦ done | ok m ↦ plain (λ _. refl) (λ t. done) ]))
                ])
        ])

  write_unique_temp-Ends :
      (n : ℕ) (directory : FilePath) (bytes : Bytes) (durability : Durability)
      → Ends n (write_unique_temp directory path bytes durability)
  unfolding write_unique_temp
  write_unique_temp-Ends n directory bytes durability =
      plain (λ _. refl)
        (λ nanos.
          plain (λ _. refl)
            (λ discriminator.
              plain (λ _. refl)
                (λ process.
                  let temp = join directory (new (temp_name process discriminator nanos)) in
                  Ends->>= _ _
                    (Ends-caught (write_temp temp path bytes durability)
                      (write_temp-Ends n temp bytes durability))
                    (λ k le. elim [ ok stamp ↦ done | err e ↦ discard-Ends temp e ]))))

  check_destination-Ends :
      (n : ℕ) (temp : FilePath) (expected : Option ExpectedDestination)
      → Ends n (check_destination c temp path expected)
  unfolding check_destination
  check_destination-Ends n temp none = done
  check_destination-Ends n temp (some e) =
      plain (λ _. refl)
        (elim [
          | err x ↦
              Ends-if (is_not_found x.error_kind) (λ _. discard-Ends temp _)
                (λ _. discard-Ends temp _)
          | ok m ↦
              plain (λ _. refl)
                (λ t.
                  Ends-if (not (stamp_eq (from_metadata t m) e.stamp)) (λ _. discard-Ends temp _)
                    (λ _.
                      Ends-if e.stamp.racy
                        (λ _. Ends->>= _ _ (same_content-Ends c temp path e) (λ k le unchanged.
                          Ends-if unchanged (λ _. done) (λ _. discard-Ends temp _)))
                        (λ _. done)))
        ])

  put_in_place-Ends :
      (n : ℕ) (temp : FilePath) (stamp : FileStamp) (durability : Durability)
      → Ends n (put_in_place temp path stamp durability)
  unfolding put_in_place
  put_in_place-Ends n temp stamp durability =
      plain (λ _. refl)
        (elim [
          | err e ↦ discard-Ends temp _
          | ok a ↦
              Ends->>= _ _ (settle-Ends durability (directory_of path))
                (λ k le _. confirm_stamp-Ends path stamp)
        ])

  link_in_place-Ends :
      (n : ℕ) (temp : FilePath) (stamp : FileStamp) (durability : Durability)
      → Ends n (link_in_place temp path stamp durability)
  unfolding link_in_place
  link_in_place-Ends n temp stamp durability =
      plain (λ _. refl)
        (elim [
          | err e ↦
              plain (λ _. refl)
                (λ _. Ends-if (is_already_exists e.error_kind) (λ _. done) (λ _. done))
          | ok a ↦
              plain (λ _. refl)
                (λ _.
                  Ends->>= _ _ (settle-Ends durability (directory_of path))
                    (λ k le _. confirm_stamp-Ends path stamp))
        ])

  locked-Ends :
      (n : ℕ) (body : Task PersistError (Option FileStamp))
      → Ends n body
      → Ends n (locked path body)
  locked-Ends n body h =
      plain (λ _. refl)
        (λ _.
          Ends->>= (caught body) _ (Ends-caught body h) (λ k le r. plain (λ _. refl) (λ _. done)))

  -- the replacement, in runs with interruptions
  pub replace-Ends :
      (n : ℕ) (bytes : Bytes) (expected : Option ExpectedDestination) (durability : Durability)
      → Ends n (atomic_write c path bytes expected durability)
  unfolding atomic_write write_body ensure_parent
  replace-Ends n bytes expected durability = locked-Ends n _ (
      Ends->>= _ _ (make_directory-Ends path (parent path)) (λ k le _.
        Ends->>= _ _ (write_unique_temp-Ends k (directory_of path) bytes durability)
          (λ j le (temp, stamp).
            Ends->>= _ _ (check_destination-Ends j temp expected)
              (λ i le _. put_in_place-Ends i temp stamp durability))))

  -- the creation, in runs with interruptions
  pub create-Ends :
      (n : ℕ) (bytes : Bytes) (durability : Durability)
      → Ends n (atomic_create path bytes durability)
  unfolding atomic_create create_body ensure_parent
  create-Ends n bytes durability = locked-Ends n _ (
      Ends->>= _ _ (make_directory-Ends path (parent path)) (λ k le _.
        Ends->>= _ _ (write_unique_temp-Ends k (directory_of path) bytes durability)
          (λ j le (temp, stamp). link_in_place-Ends j temp stamp durability)))

  -- Every run of `atomic_write` and of `atomic_create` ends with a result.
  pub atomic_write-Ends :
      (bytes : Bytes) (expected : Option ExpectedDestination) (durability : Durability)
      → Ends 0 (atomic_write c path bytes expected durability)
        × Ends 0 (atomic_create path bytes durability)
  atomic_write-Ends bytes expected durability =
      (replace-Ends 0 bytes expected durability, create-Ends 0 bytes durability)
