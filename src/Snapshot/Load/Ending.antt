-- ===== src/Snapshot/Load/Ending.antt =====
-- `Snapshot::load` of src/snapshot.rs ends: a file that keeps growing is refused by its size, so only
-- interrupted reads can keep the loop over `read` going.
use hashline_rs.Prelude.{
  ℕ, zero, suc, ◌+◌, ◌≤◌, ◌≡◌, refl, true, false, not, ◌||◌, if◌then◌else◌, ◌==◌, [], ◌++◌, Option,
  none, some, Result, ok, err, map_err, Bytes, length, length-append, arith,
}
use hashline_rs.Crates.{Crates}
use hashline_rs.Paths.{FilePath}
use hashline_rs.Os.{ret, ◌>>=◌}
use hashline_rs.Os.Ending.{Ends, done, asked, plain, Ends->>=, Ends-if, Ends-check}
use hashline_rs.Protocol.Errors.{max_file_bytes, validate_file_size}
use hashline_rs.Snapshot.{SnapshotError, contract, try_from_bytes}
use hashline_rs.Snapshot.Stamp.{FileStamp, stamp_eq, from_metadata}
use hashline_rs.Snapshot.Load.{
  read_loop, path_stamp, verify_racy, max_read_attempts, is_interrupted, is_not_found, same_stamp,
  finish_candidate, read_candidate, load_attempts, load,
}

checked_size :
    (n : ℕ) {u : Unit {0}}
    → map_err {F = SnapshotError} contract (validate_file_size n) ≡ ok u
    → n ≤ max_file_bytes
unfolding validate_file_size
checked_size n h = ground arith

some_byte : (s : Bytes) → (length s == 0) ≡ false → 1 ≤ length s
some_byte s h = ground arith

read_loop-Ends :
    (rounds n : ℕ) (path : FilePath) (file : ℕ) (bytes : Bytes)
    → length bytes ≤ max_file_bytes
    → max_file_bytes + 2 + n ≤ rounds + length bytes
    → Ends n (read_loop rounds path file bytes)
unfolding read_loop
read_loop-Ends zero n path file bytes small enough = absurd (omega arith)
read_loop-Ends (suc rounds) n path file bytes small enough =
    asked
      (elim [
        | err e ↦
            λ calm. Ends-if (is_interrupted e.error_kind) (λ i. absurd (ground arith)) (λ _. done)
        | ok chunk ↦ λ _.
            Ends-if (length chunk == 0) (λ _. done)
              (λ more.
                Ends-check (map_err contract (validate_file_size (length bytes + length chunk)))
                  (λ _ e.
                    plain (λ _. refl)
                      (elim [
                        | false ↦ done
                        | true ↦
                            let both = length-append bytes chunk in
                            let grown = some_byte chunk more in
                            let fits = checked_size (length bytes + length chunk) e in
                            read_loop-Ends rounds n path file (bytes ++ chunk) (omega arith)
                              (omega arith)
                      ])))
      ])
      (elim [
        | ok chunk ↦ λ m i q. absurd (ground arith)
        | err e ↦ λ m i q.
            Ends-if (is_interrupted e.error_kind)
              (λ _. read_loop-Ends rounds m path file bytes small (omega arith)) (λ _. done)
      ])

module _ (c : Crates) (path : FilePath) where
  compared-Ends :
      (n : ℕ) (before after : FileStamp) (current : Option FileStamp) (bytes : Bytes)
      → Ends {A = Result SnapshotError (Option (Bytes × FileStamp))} n (
          if not (stamp_eq before after)
            || not (same_stamp current after)
            || not (length bytes == after.len)
          then ret (ok none)
          else (verify_racy path after bytes >>= λ confirmed.
              if not confirmed
              then ret (ok none)
              else (ret (map_err contract (try_from_bytes c bytes)) >>= λ text.
                  ret (ok (some (text, after))))))
  unfolding verify_racy
  compared-Ends n before after current bytes =
      Ends-if
        (not (stamp_eq before after)
          || not (same_stamp current after)
          || not (length bytes == after.len))
        (λ _. done)
        (λ _.
          Ends->>= _ _
            (Ends-if after.racy
              (λ _.
                plain (λ _. refl)
                  (elim [
                    | err e ↦ Ends-if (is_not_found e.error_kind) (λ _. done) (λ _. done)
                    | ok reread ↦ done
                  ]))
              (λ _. done))
            (λ k le confirmed.
              Ends-if (not confirmed) (λ _. done)
                (λ _. Ends-check (map_err contract (try_from_bytes c bytes)) (λ _ _. done))))

  finish_candidate-Ends :
      (n file : ℕ) (before : FileStamp) (bytes : Bytes)
      → Ends n (finish_candidate c path file before bytes)
  unfolding finish_candidate path_stamp
  finish_candidate-Ends n file before bytes =
      plain (λ _. refl)
        (elim [
          | err e ↦ done
          | ok final ↦
              plain (λ _. refl)
                (λ t.
                  plain (λ _. refl)
                    (elim [
                      | err e ↦
                          Ends->>= _ _ (Ends-if (is_not_found e.error_kind) (λ _. done) (λ _. done))
                            (λ k le current.
                              compared-Ends k before (from_metadata t final) current bytes)
                      | ok m ↦
                          plain (λ _. refl)
                            (λ u.
                              compared-Ends n before (from_metadata t final)
                                (some (from_metadata u m)) bytes)
                    ]))
        ])

  read_candidate-Ends :
      (rounds n : ℕ) → max_file_bytes + 2 + n ≤ rounds → Ends n (read_candidate c rounds path)
  unfolding read_candidate
  read_candidate-Ends rounds n enough =
      plain (λ _. refl)
        (elim [
          | err e ↦ done
          | ok file ↦
              plain (λ _. refl)
                (elim [
                  | err e ↦ done
                  | ok initial ↦
                      plain (λ _. refl)
                        (λ t.
                          Ends-check
                            (map_err contract (validate_file_size (from_metadata t initial).len))
                            (λ _ _.
                              plain (λ _. refl)
                                (elim [
                                  | false ↦ done
                                  | true ↦
                                      Ends->>= (read_loop rounds path file []) _
                                        (read_loop-Ends rounds n path file [] (omega arith)
                                          (omega arith))
                                        (λ k le bytes.
                                          finish_candidate-Ends k file (from_metadata t initial)
                                            bytes)
                                ])))
                ])
        ])

  load_attempts-Ends :
      (rounds attempts n : ℕ)
      → max_file_bytes + 2 + n ≤ rounds
      → Ends n (load_attempts c rounds path attempts)
  unfolding load_attempts
  load_attempts-Ends rounds zero n enough = done
  load_attempts-Ends rounds (suc attempts) n enough =
      Ends->>= (read_candidate c rounds path) _ (read_candidate-Ends rounds n enough) (λ k le.
        elim [
          | none ↦ load_attempts-Ends rounds attempts k (omega arith)
          | some (text, stamp) ↦ done
        ])

  -- A load ends, in every run in which at most `n` reads are interrupted, when it has two rounds and
  -- one for each byte of the size cap and each of the `n` interruptions.
  pub load-Ends : (rounds n : ℕ) → max_file_bytes + 2 + n ≤ rounds → Ends n (load c rounds path)
  unfolding load
  load-Ends rounds n enough = load_attempts-Ends rounds max_read_attempts n enough
