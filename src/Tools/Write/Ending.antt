-- ===== src/Tools/Write/Ending.antt =====
-- A write request ends.
use hashline_rs.Prelude.{
  ℕ, ◌+◌, ◌≤◌, Bool, true, false, Option, Result, ok, err, map_err, codes, arith,
}
use hashline_rs.Crates.{Crates}
use hashline_rs.Paths.{FilePath}
use hashline_rs.Os.{caught}
use hashline_rs.Os.Ending.{Ends, done, Ends->>=, Ends-check, Ends-caught}
use hashline_rs.Persist.{Durability, PersistError, destination_exists}
use hashline_rs.Persist.Ending.{replace-Ends, create-Ends}
use hashline_rs.Protocol.Errors.{from, max_file_bytes}
use hashline_rs.Snapshot.{Snapshot, from_validated_bytes}
use hashline_rs.Snapshot.Stamp.{FileStamp}
use hashline_rs.Snapshot.Load.{load}
use hashline_rs.Snapshot.Load.Ending.{load-Ends}
use hashline_rs.Tools.Failures.{snapshot_protocol_error, remember}
use hashline_rs.Workspace.{Workspace, resolve_workspace_path}
use hashline_rs.Workspace.Ending.{resolve_workspace_path-Ends}
use hashline_rs.Protocol.Requests.{WriteRequest, validate_write}
use hashline_rs.Protocol.Versioned.{validate_reference_write}
use hashline_rs.Tools.Edit.Ending.{remember-Ends}
use hashline_rs.Tools.Write.{
  current_of, state_of, expected_of, lose_create_race, persisted_or, persist_content, run_blocking,
  run,
}

module _ (c : Crates) (rounds : ℕ) (path : FilePath) (input : WriteRequest)
    (durability : Durability) where
  persist_content-Ends :
      (n : ℕ) (current : Option Snapshot) (created : Bool)
      → Ends n (persist_content c path input current durability created)
  unfolding persist_content
  persist_content-Ends n current true = create-Ends c path n input.content durability
  persist_content-Ends n current false =
      replace-Ends c path n input.content (expected_of current) durability

  persisted_or-Ends :
      (n : ℕ)
      → max_file_bytes + 2 + n ≤ rounds
      → (r : Result PersistError (Option FileStamp)) → Ends n (persisted_or c rounds path input r)
  unfolding persisted_or lose_create_race
  persisted_or-Ends n enough (ok stamp) = done
  persisted_or-Ends n enough (err (destination_exists p)) =
      Ends->>= (caught (load c rounds path)) _
        (Ends-caught (load c rounds path) (load-Ends c path rounds n enough)) (λ k le loaded. done)
  persisted_or-Ends n enough (err e) = done

  pub run_blocking-Ends :
      (n : ℕ)
      → max_file_bytes + 2 + n ≤ rounds
      → Ends n (run_blocking c rounds path input durability)
  unfolding run_blocking
  run_blocking-Ends n enough =
      Ends->>= (caught (load c rounds path)) _
        (Ends-caught (load c rounds path) (load-Ends c path rounds n enough))
        (λ k le loaded. Ends-check (current_of path loaded) (λ current _.
          Ends-check (validate_reference_write (state_of current) input) (λ created _.
            let content = persist_content c path input current durability created in
            Ends->>= (caught content) _
              (Ends-caught content (persist_content-Ends k current created))
              (λ j less result.
                Ends->>= (persisted_or c rounds path input result) _
                  (persisted_or-Ends j (omega (arith, enough)) result)
                  (λ i below stamp.
                    Ends-check
                      (map_err (snapshot_protocol_error (codes "write") path)
                        (from_validated_bytes c input.content))
                      (λ s _.
                        Ends->>= (remember path s stamp) _ (remember-Ends path s stamp)
                          (λ h small t. done)))))))

pub run-Ends :
    (c : Crates) (rounds n : ℕ) (w : Workspace) (input : WriteRequest)
    → max_file_bytes + 2 + n ≤ rounds
    → Ends n (run c rounds w input)
unfolding run
run-Ends c rounds n w input enough = Ends-check (map_err from (validate_write input)) (λ valid _.
    Ends->>= (resolve_workspace_path w input.file_path) _
      (resolve_workspace_path-Ends n w input.file_path)
      (λ k le path. run_blocking-Ends c rounds path input w.durability k (omega (arith, enough))))
