-- ===== src/Tools/Write/Outcome.antt =====
-- What every run of the write pipeline of src/write.rs does to the files and answers.
use hashline_rs.Prelude.{
  ℕ, ◌≡◌, refl, Bool, true, false, Bool-cases, inl, inr, [], ◌∷◌, ◌++◌, Option, none, some, Result,
  ok, err, map_err, codes,
}
use hashline_rs.Crates.{Crates, CratesLaws}
use hashline_rs.Paths.{FilePath}
use hashline_rs.Os.{Task, ret, ◌>>=◌, caught}
use hashline_rs.Os.Always.{
  Log, Always, ends, asks, Always->>=, Always-mono, Always-both, Always-caught, Always-check,
  Always-grows,
}
use hashline_rs.Os.Quiet.{Quiet, Reads-Quiet}
use hashline_rs.Protocol.Codec.WriteExpect.{WriteExpect}
use hashline_rs.Protocol.Errors.{ProtocolError}
use hashline_rs.Protocol.Text.Splice.{IsUtf8}
use hashline_rs.Protocol.Text.Policy.{IsText}
use hashline_rs.Protocol.Requests.{WriteRequest}
use hashline_rs.Protocol.Versioned.{validate_reference_write}
use hashline_rs.Snapshot.{Snapshot, SnapshotError, from_validated_bytes}
use hashline_rs.Snapshot.Stamp.{FileStamp}
use hashline_rs.Snapshot.Agreement.{built, from_validated_bytes_lem}
use hashline_rs.Snapshot.Load.{load}
use hashline_rs.Snapshot.Load.Stable.{Loaded, load_lem}
use hashline_rs.Snapshot.Load.Quiet.{load-Reads}
use hashline_rs.Persist.{Durability, PersistError, io, destination_changed, destination_exists}
use hashline_rs.Persist.Effects.{Stage, Quiet-Stage, Reads-Stage}
use hashline_rs.Persist.Guard.{atomic_write_lem}
use hashline_rs.Persist.Replace.{Placed}
use hashline_rs.Persist.Create.{atomic_create_lem}
use hashline_rs.Snapshot.Load.{is_missing}
use hashline_rs.Tools.Failures.{snapshot_protocol_error, remember}
use hashline_rs.Tools.Write.{
  WriteSuccess, current_of, state_of, expected_of, lose_create_race, persisted_or, written_of,
  persist_content, run_blocking,
}
use hashline_rs.Tools.Write.Success.{
  Decided, decide-Decided, accepted-IsText, write-inversion, placement, Origin, IsWritten,
  WrittenBehind, Written,
}

module _ (c : Crates) (laws : CratesLaws c) (rounds : ℕ) (path : FilePath) (input : WriteRequest)
    (durability : Durability) (utf8 : IsUtf8 input.content) (before : Log) where
  abbrev Good : Log → Result ProtocolError WriteSuccess → Type 0
  Good = WrittenBehind c path input durability before

  -- behind the look at the current state
  abbrev decide_and_write : Option Snapshot → Task ProtocolError WriteSuccess
  decide_and_write current = ret (validate_reference_write (state_of current) input) >>= λ created.
      caught (persist_content c path input current durability created) >>= λ result.
      persisted_or c rounds path input result >>= λ stamp.
      ret (
        map_err (snapshot_protocol_error (codes "write") path)
          (from_validated_bytes c input.content))
      >>= λ s. remember path s stamp >>= λ _. ret (ok (written_of input created s))

  persist_content_lem :
      (current : Option Snapshot) (created : Bool) {log : Log}
      → Decided input.expect current created
      → Stage c path (expected_of current) [] [] log
      → Always
          (Placed c path (expected_of current) (placement c path input durability created))
          log
          (persist_content c path input current durability created)
  unfolding persist_content
  persist_content_lem none true d s = atomic_create_lem c path input.content durability s
  persist_content_lem current false d s =
      atomic_write_lem c path (expected_of current) input.content durability s
  persist_content_lem (some s) true d h = absurd (not_fresh d)
    where
      not_fresh : {e : WriteExpect} → Decided e (some s) true → ⊥
      not_fresh d = elim d [ ]

  module _ (current : Option Snapshot) (created : Bool)
      (origin : Origin c path input durability before current)
      (decided : Decided input.expect current created) (text : IsText input.content) where
    written :
        (l : Log)
        → Stage c path (expected_of current) [] (placement c path input durability created ∷ []) l
        → IsWritten c path input durability before l
            (written_of input created (built c laws input.content none))
    written l s = record {
      current = current;
      created = created;
      origin = origin;
      decided = decided;
      staged = s;
      reported = refl;
    }

    lost :
        {l : Log} (f : Option FileStamp → Task ProtocolError WriteSuccess)
        → Stage c path (expected_of current) [] [] l
        → Always Good l (lose_create_race c rounds path input >>= f)
    unfolding lose_create_race
    lost f s = Always->>= Good (lose_create_race c rounds path input) f (
        Always->>= _ (caught (load c rounds path)) _ (
          Always-caught (load c rounds path) (
            Always-mono (load c rounds path) (λ l r (g, o, p). ends (o, p))
              (Reads-Stage c path (expected_of current) (load-Reads c path rounds) s))))

    behind_persist :
        (l : Log) (r : Result PersistError (Option FileStamp))
        → Placed c path (expected_of current) (placement c path input durability created) l r
        → Always Good l (
            persisted_or c rounds path input r >>= λ stamp.
            ret (
              map_err
                (snapshot_protocol_error (codes "write") path)
                (from_validated_bytes c input.content))
            >>= λ s. remember path s stamp >>= λ _. ret (ok (written_of input created s)))
    unfolding persisted_or
    behind_persist l (ok none) s =
        rw (from_validated_bytes_lem c laws input.content text) (ends (written l s))
    behind_persist l (ok (some stamp)) (g, o, r) =
        rw (from_validated_bytes_lem c laws input.content text)
          (asks (λ a. ends (written _ ((tt, g), o, r))))
    behind_persist l (err (destination_exists p)) s = lost _ s
    behind_persist l (err (destination_changed p)) (g, o, r) = ends (o, r)
    behind_persist l (err (io operation p e)) (g, o, r) = ends (o, r)

  decide_and_write_lem :
      (current : Option Snapshot) {log : Log}
      → Origin c path input durability before current
      → Quiet log
      → Always Good log (decide_and_write current)
  decide_and_write_lem current {log} origin quiet =
      Always-check (validate_reference_write (state_of current) input)
        (λ created e.
          let (valid, decision) = write-inversion (state_of current) input e in
          let decided = decide-Decided input.expect current input.file_path created decision in
          Always->>= Good (caught (persist_content c path input current durability created)) _ (
            Always-caught (persist_content c path input current durability created) (
              Always-mono (persist_content c path input current durability created)
                (behind_persist current created origin decided (accepted-IsText input utf8 valid))
                (persist_content_lem current created decided
                  (Quiet-Stage c path (expected_of current) log quiet)))))
        (λ e _. let (g, o, r) = Quiet-Stage c path none log quiet in (o, r))

module _ (c : Crates) (laws : CratesLaws c) (rounds : ℕ) (path : FilePath) (input : WriteRequest)
    (durability : Durability) (utf8 : IsUtf8 input.content) where
  -- behind the load
  abbrev pipeline : Log → Result SnapshotError Snapshot → Task ProtocolError WriteSuccess
  pipeline l r =
      ret (current_of path r) >>= decide_and_write c laws rounds path input durability utf8 l

  behind_load :
      (l : Log) (r : Result SnapshotError Snapshot)
      → Loaded c path l r × Quiet l
      → Always (WrittenBehind c path input durability l) l (pipeline l r)
  behind_load l (ok s) (is_loaded, quiet) =
      decide_and_write_lem c laws rounds path input durability utf8 l (some s) is_loaded quiet
  behind_load l (err e) (failed, quiet) = elim (Bool-cases (is_missing e)) [
    | inl missing ↦ elim failed [
      | inl other ↦ absurd (let f = other in cc)
      | inr gone ↦
          rw missing
            (decide_and_write_lem c laws rounds path input durability utf8 l none gone quiet)
    ]
    | inr other ↦ rw other (ends (let (g, o, r) = Quiet-Stage c path none l quiet in (o, r)))
  ]

  finished :
      (l k : Log) (r : Result ProtocolError WriteSuccess)
      → WrittenBehind c path input durability l k r × ((later : Log) × (k ≡ later ++ l))
      → Written c path input durability k r
  finished l k (ok success) (written, (later, e)) = (l, later, e, written)
  finished l k (err e) (failed, _) = failed

  within :
      (l : Log) (r : Result SnapshotError Snapshot)
      → Loaded c path l r × Quiet l
      → Always (Written c path input durability) l (pipeline l r)
  within l r h =
      Always-mono (pipeline l r) (finished l)
        (Always-both (pipeline l r) (behind_load l r h) (Always-grows (pipeline l r)))

  pub run_blocking_lem :
      {log : Log}
      → Quiet log
      → Always (Written c path input durability) log (run_blocking c rounds path input durability)
  unfolding run_blocking
  run_blocking_lem quiet =
      Always->>= (Written c path input durability) (caught (load c rounds path)) _ (
        Always-caught (load c rounds path) (
          Always-mono (load c rounds path) within (
            Always-both (load c rounds path) (load_lem c laws path rounds)
              (Reads-Quiet (load-Reads c path rounds) quiet))))

  -- For UTF-8 content, whatever the answers are: a success means that the request expected no file,
  -- that the load of the path found none, and that the content came to the path by one link, or
  -- that the request named the identity of the snapshot that the load of the path returned, and
  -- that the content came to the path by one rename right behind a look at the destination that
  -- found the loaded stamp; that nothing else came to any path; and that the answer reports the
  -- content. An error means that nothing came to any path. Every created file was renamed or asked
  -- to be removed.
  pub run_blocking-Written :
      Always (Written c path input durability) [] (run_blocking c rounds path input durability)
  run_blocking-Written = run_blocking_lem tt
