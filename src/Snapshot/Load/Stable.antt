-- ===== src/Snapshot/Load/Stable.antt =====
-- What a loaded snapshot is: the bytes that the reads gave, between two looks at the descriptor and one
-- at the path that show one stamp; and what a load that finds no file has seen.
use hashline_rs.Prelude.{
  ℕ, zero, suc, ◌≡◌, ◌⊎◌, refl, sym, ap, ◌∙◌, true, false, not, ◌||◌, [], ◌∷◌, Option, none, some,
  inl, inr, ◌==◌, if◌then◌else◌, Result, ok, err, map_err, Bytes, codes, All, ◌++◌, length,
  bytes_eq, bytes_eq→eq, arith,
}
use hashline_rs.Crates.{Crates, CratesLaws}
use hashline_rs.Paths.{FilePath}
use hashline_rs.Os.{Task, ret, ◌>>=◌, read_file, descriptor_metadata, metadata, now, reserve}
use hashline_rs.Os.Always.{
  event, Log, Always, ends, asks, Then, Always->>=, Always-mono, Always-if, Always-check,
  Always-both, Any,
}
use hashline_rs.Protocol.Errors.{validate_file_size}
use hashline_rs.Protocol.Text.{validate_text}
use hashline_rs.Snapshot.{
  Snapshot, SnapshotError, contract, try_from_bytes, from_validated_with_stamp,
}
use hashline_rs.Snapshot.Stamp.{FileStamp, Metadata, stamp_eq, from_metadata}
use hashline_rs.Snapshot.Agreement.{
  WellFormed, try_from_bytes-validate_text, validate_text-le, built-WellFormed, from_validated_lem,
}
use hashline_rs.Snapshot.Load.{
  read_loop, path_stamp, verify_racy, max_read_attempts, is_not_found, same_stamp, finish_candidate,
  read_candidate, load_attempts, load,
}
use hashline_rs.Snapshot.Load.Looks.{
  opening, Reading, IsPast, Unchanged, Unchanged-later, unopened, unlooked, Failed, io-Failed,
  contract-Failed, IsOpen-later, OnlyReads, read_loop-OnlyReads,
}
use hashline_rs.Snapshot.Load.Reading.{Shows, IsStable, Candidate, read_back, Whole, read_loop_lem}

module _ (c : Crates) (path : FilePath) where
  -- A loaded snapshot is well-formed, and stable under its stamp.
  pub record IsLoaded (log : Log) (s : Snapshot) : Type 0 where
    pub well_formed : WellFormed c s
    pub stable : (stamp : FileStamp) × (s.stamp ≡ some stamp) × IsStable path log s.text stamp

  abbrev pub Loaded : Log → Result SnapshotError Snapshot → Type 0
  Loaded log (ok s) = IsLoaded log s
  Loaded log (err e) = Failed path log e

module _ (c : Crates) (laws : CratesLaws c) (path : FilePath) where
  text_of_ok :
      (bytes : Bytes) {text : Bytes}
      → map_err contract (try_from_bytes c bytes) ≡ ok text
      → (validate_text text ≡ ok text) × (text ≡ bytes)
  text_of_ok bytes {text} h =
      let agree = try_from_bytes-validate_text c laws bytes in
      let v : validate_text bytes ≡ ok text = ground arith in
      let same : text ≡ bytes = (validate_text-le bytes v).1 in (rw (← same) at v, same)

  -- the validation at the end
  accept_lem :
      (bytes : Bytes) (stamp : FileStamp) {log : Log}
      → read_back log ≡ bytes
      → length bytes ≡ stamp.len
      → Any (λ e. Shows path stamp e.asked e.answer) log
      → Unchanged path log stamp
      → (stamp.racy ≡ false) ⊎ ((rest : Log) × (log ≡ event (read_file path) (ok bytes) ∷ rest))
      → Always (Candidate path) log (
          ret (map_err contract (try_from_bytes c bytes)) >>= λ text. ret (ok (some (text, stamp))))
  accept_lem bytes stamp read len shown unchanged again =
      Always-check (map_err contract (try_from_bytes c bytes))
        (λ text e.
          let (valid, same) = text_of_ok bytes e in
          ends (record {
            read = read ∙ sym same;
            valid = valid;
            len_eq = ap length same ∙ len;
            shown = shown;
            unchanged = unchanged;
            confirmed = elim again [ inl calm ↦ inl calm | inr (rest, q) ↦ inr (rest, rw same q) ];
          }))
        (λ e h. contract-Failed path (try_from_bytes c bytes) h)

  -- from the comparison of the stamps on
  compared_lem :
      (before after : FileStamp) (current : Option FileStamp) (bytes : Bytes) {log : Log}
      → read_back log ≡ bytes
      → (same_stamp current after ≡ true → Any (λ e. Shows path after e.asked e.answer) log)
      → (stamp_eq before after ≡ true → Unchanged path log after)
      → Always (Candidate path) log (
          if not (stamp_eq before after)
            || not (same_stamp current after)
            || not (length bytes == after.len)
          then ret (ok none)
          else (verify_racy path after bytes >>= λ confirmed.
              if not confirmed
              then ret (ok none)
              else (ret (map_err contract (try_from_bytes c bytes)) >>= λ text.
                  ret (ok (some (text, after))))))
  unfolding verify_racy
  compared_lem before after current bytes {log} read shown unchanged =
      Always-if
        (not (stamp_eq before after)
          || not (same_stamp current after)
          || not (length bytes == after.len))
        (λ _. ends tt)
        (λ z.
          let len : length bytes ≡ after.len = ground arith in
          let seen = shown (ground arith) in
          let same_looks = unchanged (ground arith) in
          Always->>= (Candidate path) _ _ (
            Always-if after.racy
              (λ _. asks (elim [
                | err e ↦
                    Always-if (is_not_found e.error_kind) (λ _. ends (ends tt))
                      (λ other. ends (inl other))
                | ok reread ↦ ends (
                    Always-if (not (bytes_eq reread bytes)) (λ _. ends tt)
                      (λ same.
                        accept_lem bytes after read len (inr seen)
                          (Unchanged-later path _ tt same_looks)
                          (inr (log, rw (bytes_eq→eq reread bytes (ground arith)) refl))))
              ]))
              (λ calm. ends (accept_lem bytes after read len seen same_looks (inl calm)))))

  -- behind reads of a descriptor that was looked at
  finish_candidate_lem :
      (file : ℕ) (initial : Metadata) (at : ℕ) (bytes : Bytes) (reads earlier : Log)
      → read_back (reads ++ opening path file initial at earlier) ≡ bytes
      → All (Reading file) reads
      → Always
          (Candidate path)
          (reads ++ opening path file initial at earlier)
          (finish_candidate c path file (from_metadata at initial) bytes)
  unfolding finish_candidate path_stamp
  finish_candidate_lem file initial at bytes reads earlier h only = asks (elim [
    | err e ↦ ends (
        io-Failed path (codes "read final metadata for") e (λ missing. unlooked missing (
          IsOpen-later path file reads (opening path file initial at earlier)
            (inr (inr (inl (refl, refl)))))))
    | ok final ↦ asks (λ t. asks (elim [
      | err e ↦ Always->>= (Candidate path) _ _ (
          Always-if (is_not_found e.error_kind)
            (λ _. ends (
              compared_lem (from_metadata at initial) (from_metadata t final) none bytes h (λ z. cc)
                (λ same. looked final t (event (metadata path) (err e) ∷ []) (tt, tt) same)))
            (λ other. ends (inl other)))
      | ok m ↦ asks (λ u.
          compared_lem (from_metadata at initial) (from_metadata t final) (some (from_metadata u m))
            bytes h (λ z. inr (inl (refl, (u, z))))
            (λ same.
              looked final t (event now u ∷ event (metadata path) (ok m) ∷ []) (tt, (tt, tt)) same))
    ]))
  ])
    where
      looked :
          (final : Metadata) (t : ℕ) (later : Log)
          → All (λ e. IsPast e.asked) later
          → stamp_eq (from_metadata at initial) (from_metadata t final) ≡ true
          → Unchanged path
              (later
                ++ event now t ∷ event (descriptor_metadata file) (ok final) ∷ reads
                ++ opening path file initial at earlier)
              (from_metadata t final)
      looked final t later past same = record {
        file = file;
        initial = initial;
        final = final;
        first_time = at;
        last_time = t;
        earlier = earlier;
        reads = reads;
        later = later;
        calls = refl;
        only = only;
        past = past;
        first = same;
        last = refl;
      }

  behind_loop :
      (file : ℕ) (initial : Metadata) (at : ℕ) (earlier log : Log) (r : Result SnapshotError Bytes)
      → Whole log r × OnlyReads path file (opening path file initial at earlier) log r
      → Then (Candidate path) (finish_candidate c path file (from_metadata at initial)) log r
  behind_loop file initial at earlier log (ok bytes) (read, (reads, e, only)) =
      rw e (finish_candidate_lem file initial at bytes reads earlier (rw e at read) only)
  behind_loop file initial at earlier log (err e) (_, failed) = failed

  read_candidate_lem :
      (rounds : ℕ) {log : Log} → Always (Candidate path) log (read_candidate c rounds path)
  unfolding read_candidate
  read_candidate_lem rounds {log} = asks (elim [
    | err e ↦ ends (io-Failed path (codes "open") e unopened)
    | ok file ↦ asks (elim [
      | err e ↦ ends (
          io-Failed path (codes "read initial metadata for") e
            (λ missing. unlooked missing (inl (refl, refl))))
      | ok initial ↦ asks (λ t.
          Always-check (map_err contract (validate_file_size (from_metadata t initial).len))
            (λ _ _. asks (elim [
              | false ↦ ends (inl refl)
              | true ↦ Always->>= (Candidate path) _ _ (
                  let loop = read_loop rounds path file [] in
                  Always-mono loop (behind_loop file initial t log) (
                    Always-both loop (read_loop_lem rounds path file [] refl) (
                      read_loop-OnlyReads rounds path file [] (opening path file initial t log)
                        (event (reserve (from_metadata t initial).len) true ∷ [])
                        (inr (inr (inl (refl, refl)))) (tt, tt))))
            ]))
            (λ e h. contract-Failed path _ h))
    ])
  ])

  retry :
      (rest : Task SnapshotError Snapshot)
      → ((log : Log) → Always (Loaded c path) log rest)
      → (log : Log) (found : Result SnapshotError (Option (Bytes × FileStamp)))
      → Candidate path log found
      → Then
          (Loaded c path)
          (λ candidate. elim candidate [
            | none ↦ rest
            | some (text, stamp) ↦ ret (from_validated_with_stamp c text (some stamp))
          ])
          log
          found
  retry rest h log (err e) failed = failed
  retry rest h log (ok none) _ = h log
  retry rest h log (ok (some (text, stamp))) stable =
      rw (from_validated_lem c laws text (some stamp) stable.valid) (
        ends (record {
          well_formed = built-WellFormed c laws text (some stamp) stable.valid;
          stable = (stamp, refl, stable);
        }))

  load_attempts_lem :
      (rounds attempts : ℕ) (log : Log)
      → Always (Loaded c path) log (load_attempts c rounds path attempts)
  unfolding load_attempts
  load_attempts_lem rounds zero log = ends (inl refl)
  load_attempts_lem rounds (suc attempts) log = Always->>= (Loaded c path) _ _ (
      Always-mono (read_candidate c rounds path)
        (retry (load_attempts c rounds path attempts) (load_attempts_lem rounds attempts))
        (read_candidate_lem rounds))

  pub load_lem : (rounds : ℕ) {log : Log} → Always (Loaded c path) log (load c rounds path)
  unfolding load
  load_lem rounds {log} = load_attempts_lem rounds max_read_attempts log

  -- Whatever other processes do meanwhile, what a load returns is a well-formed snapshot of
  -- exactly the bytes that the reads since its last opening of a file gave, in order. These are
  -- reads of one descriptor of the path, with nothing between two looks at it that show one
  -- stamp; this is the snapshot's stamp, has the length of the text, and the path showed it too;
  -- and where the stamp is racy, the last call read the same bytes at the path once more. A load
  -- that fails because there is no file has ended with a call on the path, or on a descriptor of
  -- it, that was answered so.
  pub load-IsLoaded : (rounds : ℕ) → Always (Loaded c path) [] (load c rounds path)
  load-IsLoaded rounds = load_lem rounds
