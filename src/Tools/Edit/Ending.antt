-- ===== src/Tools/Edit/Ending.antt =====
-- An edit request ends.
use hashline_rs.Prelude.{
  ℕ, ◌+◌, ◌≤◌, ◌==◌, refl, not, if◌then◌else◌, [], Option, none, some, ok, err, Bytes, map_err,
  codes, arith,
}
use hashline_rs.Crates.{Crates}
use hashline_rs.Paths.{FilePath, parent}
use hashline_rs.Os.{caught}
use hashline_rs.Os.Ending.{Ends, done, plain, Ends->>=, Ends-if, Ends-check, Ends-caught}
use hashline_rs.Persist.{Durability}
use hashline_rs.Persist.Ending.{replace-Ends}
use hashline_rs.Protocol.Errors.{from, max_file_bytes}
use hashline_rs.Snapshot.{Snapshot, from_validated_bytes, from_bytes}
use hashline_rs.Snapshot.Stamp.{FileStamp}
use hashline_rs.Snapshot.Load.{load}
use hashline_rs.Snapshot.Load.Ending.{load-Ends}
use hashline_rs.Snapshot.Load.{is_missing}
use hashline_rs.Tools.Failures.{
  map_failure, persist_protocol_error, snapshot_protocol_error, remember,
}
use hashline_rs.Workspace.{Workspace, resolve_workspace_path}
use hashline_rs.Workspace.Ending.{Ends-map_failure, resolve_workspace_path-Ends}
use hashline_rs.Engine.{apply_edits_fast}
use hashline_rs.Protocol.Requests.{EditRequest, validate_edit}
use hashline_rs.Protocol.Versioned.{apply_versioned_reference_edits}
use hashline_rs.Tools.Edit.{
  publish, make_parent, destination_of, empty_conflict, create_new_file, run_blocking, run,
}

pub remember-Ends :
    {n : ℕ} (path : FilePath) (s : Snapshot) (stamp : Option FileStamp)
    → Ends n (remember path s stamp)
remember-Ends path s none = done
remember-Ends path s (some stamp) = plain (λ a. refl) (λ a. done)

module _ (c : Crates) (path : FilePath) (input : EditRequest) (durability : Durability) where
  publish-Ends :
      (n previous : ℕ) (applied : Bytes) (expected : Option FileStamp)
      → Ends n (publish c path input previous applied expected durability)
  unfolding publish
  publish-Ends n previous applied expected =
      Ends->>= (map_failure persist_protocol_error _) _
        (Ends-map_failure persist_protocol_error _
          (replace-Ends c path n applied (destination_of expected previous) durability))
        (λ k le stamp.
          Ends-check
            (map_err (snapshot_protocol_error (codes "edit") path) (from_validated_bytes c applied))
            (λ s _.
              Ends->>= (remember path s stamp) _ (remember-Ends path s stamp) (λ j less t. done)))

  make_parent-Ends : {n : ℕ} (directory : Option FilePath) → Ends n (make_parent path directory)
  make_parent-Ends none = done
  make_parent-Ends (some directory) = plain (λ a. refl) (elim [ ok made ↦ done | err e ↦ done ])

  create_new_file-Ends : (n : ℕ) → Ends n (create_new_file c path input durability)
  unfolding create_new_file
  create_new_file-Ends n =
      Ends-check (map_err (snapshot_protocol_error (codes "edit") path) (from_bytes c []))
        (λ empty _.
          Ends-check
            (if not (input.snapshot == empty.id)
              then empty_conflict input empty.id
              else apply_versioned_reference_edits [] empty.id input)
            (λ applied _.
              Ends->>= (make_parent path (parent path)) _ (make_parent-Ends (parent path))
                (λ k le t. publish-Ends k empty.id applied none)))

  pub run_blocking-Ends :
      (rounds n : ℕ)
      → max_file_bytes + 2 + n ≤ rounds
      → Ends n (run_blocking c rounds path input durability)
  unfolding run_blocking
  run_blocking-Ends rounds n enough =
      Ends->>= (caught (load c rounds path)) _
        (Ends-caught (load c rounds path) (load-Ends c path rounds n enough))
        (λ k le. elim [
          | ok s ↦
              Ends-check (apply_edits_fast c s input)
                (λ applied _. publish-Ends k s.id applied s.stamp)
          | err e ↦ Ends-if (is_missing e) (λ missing. create_new_file-Ends k) (λ other. done)
        ])

pub run-Ends :
    (c : Crates) (rounds n : ℕ) (w : Workspace) (input : EditRequest)
    → max_file_bytes + 2 + n ≤ rounds
    → Ends n (run c rounds w input)
unfolding run
run-Ends c rounds n w input enough = Ends-check (map_err from (validate_edit input)) (λ valid _.
    Ends->>= (resolve_workspace_path w input.file_path) _
      (resolve_workspace_path-Ends n w input.file_path)
      (λ k le path. run_blocking-Ends c path input w.durability rounds k (omega (arith, enough))))
