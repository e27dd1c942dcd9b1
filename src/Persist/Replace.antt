-- ===== src/Persist/Replace.antt =====
-- The look at the destination, the rename and what follows, in `atomic_write` of src/persist.rs.
use hashline_rs.Prelude.{
  ℕ, refl, not, ◌==◌, [], ◌∷◌, Option, none, some, Result, ok, err, Bytes, arith,
}
use hashline_rs.Crates.{Crates}
use hashline_rs.Paths.{FilePath, path_eq_refl}
use hashline_rs.Os.{◌>>=◌}
use hashline_rs.Os.Always.{Log, Always, ends, asks, Then, Always->>=, Always-mono, Always-if}
use hashline_rs.Snapshot.{content_id}
use hashline_rs.Snapshot.Load.{is_not_found}
use hashline_rs.Snapshot.Stamp.{FileStamp, stamp_eq, from_metadata}
use hashline_rs.Persist.{
  Durability, full, barrier, unsynced, PersistError, ExpectedDestination, same_content,
  check_destination, directory_of, settle, confirm_stamp, put_in_place,
}
use hashline_rs.Persist.Effects.{calm, racy, Confirmed, Stage, Placement, renamed, Temp}
use hashline_rs.Persist.Temp.{temp_file, discard_lem}

abbrev pub Placed :
    Crates
    → FilePath
    → Option ExpectedDestination
    → Placement
    → Log
    → Result PersistError (Option FileStamp)
    → Type 0
Placed c path expected how log (ok stamp) = Stage c path expected [] (how ∷ []) log
Placed c path expected how log (err e) = Stage c path expected [] [] log

abbrev pub Checked :
    Crates
    → FilePath
    → Temp
    → Option ExpectedDestination
    → Log
    → Result PersistError (Unit {0})
    → Type 0
Checked c path temp expected log (ok done) =
    Stage c path expected (temp ∷ []) [] log × Confirmed c path expected log
Checked c path temp expected log (err e) = Stage c path expected [] [] log

module _ (c : Crates) (path : FilePath) where
  abbrev Settled :
      Placement → Option ExpectedDestination → Log → Result PersistError (Unit {0}) → Type 0
  Settled how expected log (ok done) = Stage c path expected [] (how ∷ []) log
  Settled how expected log (err e) = ⊥

  settle_lem :
      (how : Placement) (expected : Option ExpectedDestination) (durability : Durability)
      (directory : FilePath) {log : Log}
      → Stage c path expected [] (how ∷ []) log
      → Always (Settled how expected) log (settle durability directory)
  settle_lem how expected full directory (g, o, r) = asks (λ a. ends ((tt, g), o, r))
  settle_lem how expected barrier directory s = ends s
  settle_lem how expected unsynced directory s = ends s

  confirm_stamp_lem :
      (how : Placement) (expected : Option ExpectedDestination) (stamp : FileStamp) (l : Log)
      (r : Result PersistError (Unit {0}))
      → Settled how expected l r
      → Then (Placed c path expected how) (λ _. confirm_stamp path stamp) l r
  unfolding confirm_stamp
  confirm_stamp_lem how expected stamp l (ok done) (g, o, r) =
      asks (elim [ err e ↦ ends ((tt, g), o, r) | ok m ↦ asks (λ t. ends ((tt, (tt, g)), o, r)) ])
  confirm_stamp_lem how expected stamp l (err e) s = absurd s

  -- what follows a successful rename or link
  pub settled_lem :
      (how : Placement) (expected : Option ExpectedDestination) (stamp : FileStamp)
      (durability : Durability) {log : Log}
      → Stage c path expected [] (how ∷ []) log
      → Always
          (Placed c path expected how)
          log
          (settle durability (directory_of path) >>= λ _. confirm_stamp path stamp)
  settled_lem how expected stamp durability s = Always->>= (Placed c path expected how) _ _ (
      Always-mono (settle durability (directory_of path)) (confirm_stamp_lem how expected stamp)
        (settle_lem how expected durability (directory_of path) s))

module _ (c : Crates) (path temp : FilePath) (file : ℕ) (content : Option Bytes)
    (durable : Durability) where
  abbrev made : Temp
  made = temp_file temp file content durable

  pub check_destination_lem :
      (expected : Option ExpectedDestination) {log : Log}
      → Stage c path expected (made ∷ []) [] log
      → Always (Checked c path made expected) log (check_destination c temp path expected)
  unfolding check_destination same_content
  check_destination_lem none s = ends (s, tt)
  check_destination_lem (some e) (g, o, r) = asks (elim [
    | err x ↦
        Always-if (is_not_found x.error_kind)
          (λ _. discard_lem c path (some e) temp _ ((tt, g), o, r) (λ l s. s))
          (λ _. discard_lem c path (some e) temp _ ((tt, g), o, r) (λ l s. s))
    | ok m ↦ asks (λ t.
        Always-if (not (stamp_eq (from_metadata t m) e.stamp))
          (λ _. discard_lem c path (some e) temp _ ((tt, (tt, g)), o, r) (λ l s. s))
          (λ same.
            Always-if e.stamp.racy
              (λ _. asks (elim [
                | err x ↦ Always->>= (Checked c path made (some e)) _ _ (
                    Always-if (is_not_found x.error_kind)
                      (λ _.
                        ends (
                          discard_lem c path (some e) temp _ ((tt, (tt, (tt, g))), o, r)
                            (λ l s. s)))
                      (λ _.
                        discard_lem c path (some e) temp _ ((tt, (tt, (tt, g))), o, r) (λ l s. s)))
                | ok opened ↦ asks (elim [
                  | err x ↦
                      discard_lem c path (some e) temp _ ((tt, (tt, (tt, (tt, g)))), o, r)
                        (λ l s. s)
                  | ok bytes ↦
                      Always-if (content_id c bytes == e.base_id)
                        (λ equal.
                          ends
                            (((tt, (tt, (tt, (tt, g)))), o, r), racy (ground arith) (ground arith)))
                        (λ _.
                          discard_lem c path (some e) temp _ ((tt, (tt, (tt, (tt, g)))), o, r)
                            (λ l s. s))
                ])
              ]))
              (λ still_calm. ends (((tt, (tt, g)), o, r), calm (ground arith) still_calm))))
  ])

  pub put_in_place_lem :
      (expected : Option ExpectedDestination) (stamp : FileStamp) (durability : Durability)
      (l : Log) (r : Result PersistError (Unit {0}))
      → Checked c path made expected l r
      → Then
          (Placed c path expected (renamed path (content, durable)))
          (λ _. put_in_place temp path stamp durability)
          l
          r
  unfolding put_in_place
  put_in_place_lem expected stamp durability l (err e) s = s
  put_in_place_lem expected stamp durability l (ok done) ((g, o, r), confirmed) = asks (elim [
    | err e ↦ discard_lem c path expected temp _ ((confirmed, g), o, r) (λ l s. s)
    | ok done ↦
        settled_lem c path (renamed path (content, durable)) expected stamp durability
          ((confirmed, g), rw (o, path_eq_refl temp) refl, rw (o, path_eq_refl temp, r) refl)
  ])
