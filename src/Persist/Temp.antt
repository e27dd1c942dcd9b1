-- ===== src/Persist/Temp.antt =====
-- `write_unique_temp` of src/persist.rs: the temporary file is there behind a success, and gone behind a failure.
use hashline_rs.Prelude.{
  ℕ, ◌≡◌, refl, ◌⊎◌, inl, inr, true, ◌==◌, List, [], ◌∷◌, Option, none, some, Result, ok, err,
  Bytes, codes, arith,
}
use hashline_rs.Crates.{Crates}
use hashline_rs.Paths.{FilePath, join, new, path_eq_refl}
use hashline_rs.Os.{ret, call, ◌>>=◌, capture, descriptor_metadata}
use hashline_rs.Os.Always.{Log, Always, ends, asks, Then, Always->>=, Always-mono, Always-caught}
use hashline_rs.Snapshot.Stamp.{FileStamp}
use hashline_rs.Persist.{
  Durability, full, barrier, unsynced, PersistError, ExpectedDestination, io_answer, discard,
  temp_name, sync_temp, write_temp, write_unique_temp,
}
use hashline_rs.Persist.Effects.{Stage, Temp}

==_refl : (n : ℕ) → (n == n) ≡ true
==_refl n = ground arith

-- a created file
abbrev pub temp_file : FilePath → ℕ → Option Bytes → Durability → Temp
temp_file path file content durable = record {
  path = path;
  file = file;
  content = content;
  durable = durable;
}

module _ (c : Crates) (path : FilePath) (expected : Option ExpectedDestination) where
  abbrev Before : List Temp → Log → Type 0
  Before temps log = Stage c path expected temps [] log

  -- something is left at the path
  abbrev Left : FilePath → Log → Type 0
  Left temp log =
      (file : ℕ) × ((content : Option Bytes) × ((durable : Durability) × Before
            (temp_file temp file content durable ∷ []) log))

  -- a temporary file is discarded before an error is returned
  pub discard_lem :
      {A : Type 0} {Q : Log → Result PersistError A → Type 0} (temp : FilePath) (e : PersistError)
      {file : ℕ} {content : Option Bytes} {durable : Durability} {log : Log}
      → Before (temp_file temp file content durable ∷ []) log
      → ((l : Log) → Before [] l → Q l (err e))
      → Always Q log (discard temp e)
  discard_lem temp e (g, o, r) f =
      asks (λ a. ends (f _ ((tt, g), rw (o, path_eq_refl temp) refl, r)))

  module _ (bytes : Bytes) where
    abbrev Synced : FilePath → ℕ → Durability → Log → Result PersistError (Unit {0}) → Type 0
    Synced temp file durability log (ok done) =
        Before (temp_file temp file (some bytes) durability ∷ []) log
    Synced temp file durability log (err e) = Left temp log

    abbrev Written : FilePath → Durability → Log → Result PersistError FileStamp → Type 0
    Written temp durability log (ok stamp) =
        (file : ℕ) × Before (temp_file temp file (some bytes) durability ∷ []) log
    Written temp durability log (err e) = Left temp log ⊎ Before [] log

    sync_temp_lem :
        (temp : FilePath) (durability : Durability) (file : ℕ) {log : Log}
        → Before (temp_file temp file (some bytes) unsynced ∷ []) log
        → Always (Synced temp file durability) log (sync_temp durability path file)
    unfolding sync_temp
    sync_temp_lem temp full file (g, o, r) = asks (elim [
      | err e ↦ ends (file, (some bytes, (unsynced, ((tt, g), o, r))))
      | ok done ↦ ends ((tt, g), rw (o, ==_refl file) refl, r)
    ])
    sync_temp_lem temp barrier file (g, o, r) = asks (elim [
      | err e ↦ ends (file, (some bytes, (unsynced, ((tt, g), o, r))))
      | ok done ↦ ends ((tt, g), rw (o, ==_refl file) refl, r)
    ])
    sync_temp_lem temp unsynced file s = ends s

    stat_temp :
        (temp : FilePath) (durability : Durability) (file : ℕ) (l : Log)
        (r : Result PersistError (Unit {0}))
        → Synced temp file durability l r
        → Then
            (Written temp durability)
            (λ _. call (descriptor_metadata file) (io_answer (codes "stat temp for") path) >>= λ m.
              capture m)
            l
            r
    stat_temp temp durability file l (err e) s = inl s
    stat_temp temp durability file l (ok done) (g, o, r) = asks (elim [
      | err e ↦ ends (inl (file, (some bytes, (durability, ((tt, g), o, r)))))
      | ok m ↦ asks (λ t. ends (file, ((tt, (tt, g)), o, r)))
    ])

    write_temp_lem :
        (temp : FilePath) (durability : Durability) {log : Log}
        → Before [] log
        → Always (Written temp durability) log (write_temp temp path bytes durability)
    unfolding write_temp
    write_temp_lem temp durability (g, o, r) = asks (elim [
      | err e ↦ ends (inr ((tt, g), o, r))
      | ok file ↦ asks (elim [
        | err e ↦
            ends (inl (file, (none, (unsynced, ((tt, (tt, g)), rw (o, ==_refl file) refl, r)))))
        | ok done ↦ Always->>= (Written temp durability) _ _ (
            Always-mono (sync_temp durability path file) (stat_temp temp durability file)
              (sync_temp_lem temp durability file ((tt, (tt, g)), rw (o, ==_refl file) refl, r)))
      ])
    ])

    module _ (durability : Durability) where
      abbrev pub Ready : Log → Result PersistError (FilePath × FileStamp) → Type 0
      Ready log (ok (temp, stamp)) =
          (file : ℕ) × Before (temp_file temp file (some bytes) durability ∷ []) log
      Ready log (err e) = Before [] log

      written_lem :
          (temp : FilePath) (l : Log) (r : Result PersistError FileStamp)
          → Written temp durability l r
          → Always Ready l (elim r [ ok stamp ↦ ret (ok (temp, stamp)) | err e ↦ discard temp e ])
      written_lem temp l (ok stamp) s = ends s
      written_lem temp l (err e) (inl (file, (content, (durable, s)))) =
          discard_lem temp e s (λ l s. s)
      written_lem temp l (err e) (inr (g, o, r)) = asks (λ a. ends ((tt, g), rw o refl, r))

      pub write_unique_temp_lem :
          (directory : FilePath) {log : Log}
          → Before [] log
          → Always Ready log (write_unique_temp directory path bytes durability)
      unfolding write_unique_temp
      write_unique_temp_lem directory (g, o, r) = asks (λ nanos. asks (λ discriminator.
          asks (λ process.
            let temp = join directory (new (temp_name process discriminator nanos)) in
            Always->>= Ready _ _ (
              Always-caught (write_temp temp path bytes durability) (
                Always-mono (write_temp temp path bytes durability) (written_lem temp)
                  (write_temp_lem temp durability ((tt, (tt, (tt, g))), o, r)))))))
