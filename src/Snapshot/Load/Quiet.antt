-- ===== src/Snapshot/Load/Quiet.antt =====
-- `Snapshot::load` of src/snapshot.rs changes no file.
use hashline_rs.Prelude.{
  ℕ, zero, suc, ◌+◌, refl, true, false, not, ◌||◌, if◌then◌else◌, ◌==◌, [], ◌++◌, Option, none,
  some, Result, ok, err, map_err, Bytes, length,
}
use hashline_rs.Crates.{Crates}
use hashline_rs.Paths.{FilePath}
use hashline_rs.Os.{ret, ◌>>=◌}
use hashline_rs.Os.Quiet.{Reads, done, asked, going, Reads->>=, Reads-if, Reads-check}
use hashline_rs.Protocol.Errors.{validate_file_size}
use hashline_rs.Snapshot.{SnapshotError, contract, try_from_bytes}
use hashline_rs.Snapshot.Stamp.{FileStamp, stamp_eq, from_metadata}
use hashline_rs.Snapshot.Load.{
  read_loop, path_stamp, verify_racy, max_read_attempts, is_interrupted, is_not_found, same_stamp,
  finish_candidate, read_candidate, load_attempts, load,
}

read_loop-Reads :
    (rounds : ℕ) (path : FilePath) (file : ℕ) (bytes : Bytes)
    → Reads (read_loop rounds path file bytes)
unfolding read_loop
read_loop-Reads zero path file bytes = going
read_loop-Reads (suc rounds) path file bytes = asked refl (elim [
  | err e ↦ Reads-if (is_interrupted e.error_kind) (read_loop-Reads rounds path file bytes) done
  | ok chunk ↦ Reads-if (length chunk == 0) done (
      Reads-check (map_err contract (validate_file_size (length bytes + length chunk))) (λ _.
        asked refl
          (elim [ false ↦ done | true ↦ read_loop-Reads rounds path file (bytes ++ chunk) ])))
])

module _ (c : Crates) (path : FilePath) where
  compared-Reads :
      (before after : FileStamp) (current : Option FileStamp) (bytes : Bytes)
      → Reads {A = Result SnapshotError (Option (Bytes × FileStamp))} (
          if not (stamp_eq before after)
            || not (same_stamp current after)
            || not (length bytes == after.len)
          then ret (ok none)
          else (verify_racy path after bytes >>= λ confirmed.
              if not confirmed
              then ret (ok none)
              else (ret (map_err contract (try_from_bytes c bytes)) >>= λ text.
                  ret (ok (some (text, after))))))
  unfolding verify_racy
  compared-Reads before after current bytes =
      Reads-if
        (not (stamp_eq before after)
          || not (same_stamp current after)
          || not (length bytes == after.len))
        done
        (Reads->>= _ _
          (Reads-if after.racy
            (asked refl
              (elim [ err e ↦ Reads-if (is_not_found e.error_kind) done done | ok reread ↦ done ]))
            done)
          (λ confirmed.
            Reads-if (not confirmed) done
              (Reads-check (map_err contract (try_from_bytes c bytes)) (λ _. done))))

  finish_candidate-Reads :
      (file : ℕ) (before : FileStamp) (bytes : Bytes)
      → Reads (finish_candidate c path file before bytes)
  unfolding finish_candidate path_stamp
  finish_candidate-Reads file before bytes = asked refl (elim [
    | err e ↦ done
    | ok final ↦ asked refl (λ t. asked refl (elim [
      | err e ↦
          Reads->>= _ _ (Reads-if (is_not_found e.error_kind) done done)
            (λ current. compared-Reads before (from_metadata t final) current bytes)
      | ok m ↦
          asked refl
            (λ u. compared-Reads before (from_metadata t final) (some (from_metadata u m)) bytes)
    ]))
  ])

  read_candidate-Reads : (rounds : ℕ) → Reads (read_candidate c rounds path)
  unfolding read_candidate
  read_candidate-Reads rounds = asked refl (elim [
    | err e ↦ done
    | ok file ↦ asked refl (elim [
      | err e ↦ done
      | ok initial ↦ asked refl (λ t.
          Reads-check (map_err contract (validate_file_size (from_metadata t initial).len)) (λ _.
            asked refl (elim [
              | false ↦ done
              | true ↦
                  Reads->>= (read_loop rounds path file []) _ (read_loop-Reads rounds path file [])
                    (finish_candidate-Reads file (from_metadata t initial))
            ])))
    ])
  ])

  load_attempts-Reads : (rounds attempts : ℕ) → Reads (load_attempts c rounds path attempts)
  unfolding load_attempts
  load_attempts-Reads rounds zero = done
  load_attempts-Reads rounds (suc attempts) =
      Reads->>= (read_candidate c rounds path) _ (read_candidate-Reads rounds)
        (elim [ none ↦ load_attempts-Reads rounds attempts | some (text, stamp) ↦ done ])

  pub load-Reads : (rounds : ℕ) → Reads (load c rounds path)
  unfolding load
  load-Reads rounds = load_attempts-Reads rounds max_read_attempts
