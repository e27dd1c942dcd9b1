-- ===== src/Tools/Edit/Outcome.antt =====
-- What every run of the edit pipeline of src/edit/mod.rs does to the files and answers.
use hashline_rs.Prelude.{
  ℕ, ◌≡◌, refl, sym, ap, ◌∙◌, Bool-cases, inl, inr, not, ◌==◌, if◌then◌else◌, [], ◌∷◌, ◌++◌, Option,
  none, some, Result, ok, err, map_err, Bytes, codes, All, arith,
}
use hashline_rs.Crates.{Crates, CratesLaws}
use hashline_rs.Paths.{FilePath, parent}
use hashline_rs.Os.{Task, ret, ◌>>=◌, caught}
use hashline_rs.Os.Always.{
  Log, Always, ends, asks, Then, Always->>=, Always-mono, Always-both, Always-caught, Always-if,
  Always-check, Always-grows,
}
use hashline_rs.Os.Quiet.{Quiet, Reads-Quiet}
use hashline_rs.Protocol.Errors.{ProtocolError}
use hashline_rs.Protocol.Text.Policy.{IsText}
use hashline_rs.Protocol.Text.Splice.{from_utf8→IsUtf8}
use hashline_rs.Protocol.Text.{from_utf8}
use hashline_rs.Protocol.Edits.Validated.{HasText}
use hashline_rs.Protocol.Edits.Accepted.{apply_reference_edits-Outcome}
use hashline_rs.Protocol.Requests.{EditRequest}
use hashline_rs.Protocol.Versioned.{apply_versioned_reference_edits}
use hashline_rs.Snapshot.{Snapshot, SnapshotError, content_id, from_validated_bytes}
use hashline_rs.Snapshot.Stamp.{FileStamp}
use hashline_rs.Snapshot.Agreement.{built, from_validated_bytes_lem, from_bytes-WellFormed}
use hashline_rs.Snapshot.Load.{load}
use hashline_rs.Snapshot.Load.Looks.{Missing}
use hashline_rs.Snapshot.Load.Stable.{Loaded, load_lem}
use hashline_rs.Snapshot.Load.Quiet.{load-Reads}
use hashline_rs.Engine.{apply_edits_fast}
use hashline_rs.Engine.Refinement.{HasLines, apply_edits_fast-reference}
use hashline_rs.Persist.{Durability, PersistError, atomic_write}
use hashline_rs.Persist.Effects.{renamed, Stage, Quiet-Stage}
use hashline_rs.Persist.Guard.{atomic_write_lem}
use hashline_rs.Persist.Replace.{Placed}
use hashline_rs.Snapshot.Load.{is_missing}
use hashline_rs.Tools.Failures.{
  Always-map_failure, snapshot_protocol_error, persist_protocol_error, map_failure, remember,
}
use hashline_rs.Tools.Edit.{
  EditSuccess, destination_of, success_of, publish, make_parent, empty_conflict, create_new_file,
  run_blocking,
}
use hashline_rs.Tools.Edit.Success.{
  versioned-inversion, empty_conflict-fails, Based, loaded, created, IsEdited, Edited, EditedBehind,
}

module _ (c : Crates) (laws : CratesLaws c) (path : FilePath) (input : EditRequest)
    (durability : Durability) (texts : All HasText input.edits) where
  publish_lem :
      (before : Log) (base applied : Bytes) (id : ℕ) (stamp : Option FileStamp) {log : Log}
      → Based c path before base (destination_of stamp id)
      → content_id c base ≡ id
      → apply_versioned_reference_edits base id input ≡ ok applied
      → Stage c path (destination_of stamp id) [] [] log
      → Always
          (EditedBehind c path input durability before)
          log
          (publish c path input id applied stamp durability)
  unfolding publish
  publish_lem before base applied id stamp based same computed stage =
      Always->>= (EditedBehind c path input durability before)
        (map_failure persist_protocol_error
          (atomic_write c path applied (destination_of stamp id) durability))
        _
        (Always-map_failure persist_protocol_error
          (atomic_write c path applied (destination_of stamp id) durability)
          (Always-mono (atomic_write c path applied (destination_of stamp id) durability) placed
            (atomic_write_lem c path (destination_of stamp id) applied durability stage)))
    where
      named : input.snapshot ≡ id
      named = (versioned-inversion base id input computed).0

      text : IsText applied
      text =
          (apply_reference_edits-Outcome base input.edits texts
            (versioned-inversion base id input computed).1).text

      edited :
          (l : Log)
          → Stage c path
              (destination_of stamp id)
              []
              (renamed path (some applied, durability) ∷ [])
              l
          → IsEdited c path input durability before l
              (success_of input id (built c laws applied none))
      edited l s = record {
        base = base;
        expected = destination_of stamp id;
        applied = applied;
        based = based;
        current = same ∙ sym named;
        computed = ap (λ i. apply_versioned_reference_edits base i input) named ∙ computed;
        staged = s;
        reported = rw named refl;
      }

      placed :
          (l : Log) (r : Result PersistError (Option FileStamp))
          → Placed c path (destination_of stamp id) (renamed path (some applied, durability)) l r
          → Then
              (EditedBehind c path input durability before)
              (λ confirmed.
                ret (
                  map_err
                    (snapshot_protocol_error (codes "edit") path)
                    (from_validated_bytes c applied))
                >>= λ s. remember path s confirmed >>= λ _. ret (ok (success_of input id s)))
              l
              (map_err persist_protocol_error r)
      placed l (err e) (g, o, r) = (o, r)
      placed l (ok none) s = rw (from_validated_bytes_lem c laws applied text) (ends (edited l s))
      placed l (ok (some confirmed)) (g, o, r) =
          rw (from_validated_bytes_lem c laws applied text)
            (asks (λ a. ends (edited _ ((tt, g), o, r))))

  create_new_file_lem :
      (before : Log) {log : Log}
      → Missing path before
      → Quiet log
      → Always
          (EditedBehind c path input durability before)
          log
          (create_new_file c path input durability)
  unfolding create_new_file from_utf8
  create_new_file_lem before {log} missing quiet =
      let (empty, made, wf, text, stamp) = from_bytes-WellFormed c laws [] empty_text in
      rw made (
        Always-check
          (if not (input.snapshot == empty.id)
            then empty_conflict input empty.id
            else apply_versioned_reference_edits [] empty.id input)
          (λ applied e. elim (Bool-cases (not (input.snapshot == empty.id))) [
            | inl differs ↦ absurd (empty_conflict-fails input empty.id (rw differs at e))
            | inr same ↦
                Always->>= (EditedBehind c path input durability before)
                  (make_parent path (parent path)) _
                  (made_parent (parent path) log quiet (λ l q.
                    publish_lem before [] applied empty.id none (created missing)
                      (sym (wf.id_eq ∙ ap (content_id c) text)) (rw same at e)
                      (Quiet-Stage c path none l q)))
          ])
          (λ e _. let (g, o, r) = Quiet-Stage c path none log quiet in (o, r)))
    where
      empty_text : IsText []
      empty_text = record { small = omega arith; no_nul = tt; utf8 = from_utf8→IsUtf8 [] refl }

      made_parent :
          (directory : Option FilePath) (l : Log) {f : Unit {0} → Task ProtocolError EditSuccess}
          → Quiet l
          → ((k : Log) → Quiet k → Always (EditedBehind c path input durability before) k (f tt))
          → Always
              (Then (EditedBehind c path input durability before) f)
              l
              (make_parent path directory)
      made_parent none l q h = ends (h l q)
      made_parent (some directory) l q h = asks (elim [
        | ok done ↦ ends (h _ (refl, q))
        | err e ↦ ends (let (g, o, r) = Quiet-Stage c path none l q in (o, r))
      ])

  module _ (lines : All HasLines input.edits) where
    -- behind the load
    abbrev pipeline : Result SnapshotError Snapshot → Task ProtocolError EditSuccess
    pipeline r = elim r [
      | ok snapshot ↦
          (ret (apply_edits_fast c snapshot input) >>= λ applied.
          publish c path input snapshot.id applied snapshot.stamp durability)
      | err e ↦
          if is_missing e
          then create_new_file c path input durability
          else ret (err (snapshot_protocol_error (codes "edit") path e))
    ]

    behind_load :
        (l : Log) (r : Result SnapshotError Snapshot)
        → Loaded c path l r × Quiet l
        → Always (EditedBehind c path input durability l) l (pipeline r)
    behind_load l (ok s) (is_loaded, quiet) =
        Always-check (apply_edits_fast c s input)
          (λ applied e.
            publish_lem l s.text applied s.id s.stamp (loaded is_loaded)
              (sym is_loaded.well_formed.id_eq)
              (sym (apply_edits_fast-reference c laws s is_loaded.well_formed input lines) ∙ e)
              (Quiet-Stage c path (destination_of s.stamp s.id) l quiet))
          (λ e _. let (g, o, r) = Quiet-Stage c path none l quiet in (o, r))
    behind_load l (err e) (failed, quiet) =
        Always-if (is_missing e)
          (λ missing. elim failed [
            | inl other ↦ absurd (let f = other in cc)
            | inr gone ↦ create_new_file_lem l gone quiet
          ])
          (λ _. ends (let (g, o, r) = Quiet-Stage c path none l quiet in (o, r)))

    pub run_blocking_lem :
        (rounds : ℕ) {log : Log}
        → Quiet log
        → Always (Edited c path input durability) log (run_blocking c rounds path input durability)
    unfolding run_blocking
    run_blocking_lem rounds quiet =
        Always->>= (Edited c path input durability) (caught (load c rounds path)) _ (
          Always-caught (load c rounds path) (
            Always-mono (load c rounds path) within (
              Always-both (load c rounds path) (load_lem c laws path rounds)
                (Reads-Quiet (load-Reads c path rounds) quiet))))
      where
        finished :
            (l k : Log) (r : Result ProtocolError EditSuccess)
            → EditedBehind c path input durability l k r × ((later : Log) × (k ≡ later ++ l))
            → Edited c path input durability k r
        finished l k (ok success) (edited, (later, e)) = (l, later, e, edited)
        finished l k (err e) (failed, _) = failed

        within :
            (l : Log) (r : Result SnapshotError Snapshot)
            → Loaded c path l r × Quiet l
            → Always (Edited c path input durability) l (pipeline r)
        within l r h =
            Always-mono (pipeline r) (finished l)
              (Always-both (pipeline r) (behind_load l r h) (Always-grows (pipeline r)))

    -- For operations with UTF-8 contents and positions with lines from one up, whatever the answers
    -- are: a success means that the request named the identity of a text that the load of the path
    -- returned, or of the empty text where this load found no file; that what the reference model
    -- makes of this text came to the path by one rename, for a loaded text right behind a look at
    -- the destination that found the loaded stamp, and nothing else came to any path; and that the
    -- answer reports it. An error means that nothing came to any path. Every created file was
    -- renamed or asked to be removed.
    pub run_blocking-Edited :
        (rounds : ℕ)
        → Always (Edited c path input durability) [] (run_blocking c rounds path input durability)
    run_blocking-Edited rounds = run_blocking_lem rounds tt
