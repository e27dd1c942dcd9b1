-- ===== src/Tools/Edit/Requested.antt =====
-- `edit::run` as a client asks for it: behind the validation of the request and the resolution of its path.
use hashline_rs.Prelude.{ℕ, ◌≡◌, refl, [], ◌++◌, Result, ok, err, map_err, none, All}
use hashline_rs.Crates.{Crates, CratesLaws}
use hashline_rs.Paths.{FilePath}
use hashline_rs.Os.Always.{
  Log, Always, Then, Always->>=, Always-mono, Always-check, Always-both, Always-grows,
}
use hashline_rs.Os.Quiet.{Quiet, Reads-Quiet}
use hashline_rs.Persist.Effects.{outstanding, replaced, Quiet-Stage}
use hashline_rs.Protocol.Errors.{ProtocolError, from}
use hashline_rs.Protocol.Requests.{EditRequest, validate_edit}
use hashline_rs.Workspace.{Workspace, resolve_path, resolve_workspace_path}
use hashline_rs.Workspace.Confinement.{Resolved, resolve_workspace_path-Resolved}
use hashline_rs.Workspace.Quiet.{resolve_workspace_path-Reads}
use hashline_rs.Protocol.Edits.Validated.{HasText}
use hashline_rs.Engine.Refinement.{HasLines}
use hashline_rs.Tools.Edit.Success.{Edited}
use hashline_rs.Tools.Edit.Outcome.{run_blocking_lem}
use hashline_rs.Tools.Edit.{EditSuccess, run_blocking, run}

-- The path was resolved by the first calls, and the rest is what the pipeline has done with it.
pub record IsRequested (c : Crates) (w : Workspace) (input : EditRequest) (log : Log)
    (success : EditSuccess) : Type 0 where
  pub path : FilePath
  pub before : Log
  pub later : Log
  pub calls : log ≡ later ++ before
  pub resolved : Resolved w input.file_path before (ok path)
  pub outcome : Edited c path input w.durability log (ok success)

abbrev pub EditRequested :
    Crates → Workspace → EditRequest → Log → Result ProtocolError EditSuccess → Type 0
EditRequested c w input log (ok success) = IsRequested c w input log success
EditRequested c w input log (err e) = (outstanding log ≡ []) × (replaced log ≡ [])

module _ (c : Crates) (laws : CratesLaws c) (w : Workspace) (input : EditRequest)
    (texts : All HasText input.edits) (lines : All HasLines input.edits) (rounds : ℕ) where
  behind_resolve :
      (l : Log) (r : Result ProtocolError FilePath)
      → Resolved w input.file_path l r × Quiet l
      → Then (EditRequested c w input) (λ path. run_blocking c rounds path input w.durability) l r
  behind_resolve l (err e) (_, quiet) =
      let (g, o, r) = Quiet-Stage c (resolve_path w.root input.file_path) none l quiet in (o, r)
  behind_resolve l (ok path) (resolved, quiet) =
      let pipeline = run_blocking c rounds path input w.durability in
      Always-mono pipeline finished (
        Always-both pipeline
          (run_blocking_lem c laws path input w.durability texts lines rounds quiet)
          (Always-grows pipeline))
    where
      finished :
          (k : Log) (r : Result ProtocolError EditSuccess)
          → Edited c path input w.durability k r × ((later : Log) × (k ≡ later ++ l))
          → EditRequested c w input k r
      finished k (ok success) (outcome, (later, e)) = record {
        path = path;
        before = l;
        later = later;
        calls = e;
        resolved = resolved;
        outcome = outcome;
      }
      finished k (err e) (outcome, _) = outcome

  -- For operations with UTF-8 contents and positions with lines from one up, whatever the answers
  -- are: a success of an edit request means that the first calls resolved the requested path,
  -- confined to the root where the workspace is restricted; that the request named the identity of
  -- the snapshot that a load of this path, made by these very calls, returned, or of the empty text
  -- where this load found that there is no file; that what the reference model makes of this text
  -- came to the path by one rename, for a loaded text right behind a look at the destination that
  -- found the loaded stamp, and nothing else came to any path; and that the answer reports it. An
  -- error means that nothing came to any path. Every created file was renamed or asked to be
  -- removed.
  pub run-EditRequested : Always (EditRequested c w input) [] (run c rounds w input)
  unfolding run
  run-EditRequested =
      Always-check (map_err from (validate_edit input))
        (λ valid _.
          let resolve = resolve_workspace_path w input.file_path in
          Always->>= (EditRequested c w input) resolve _ (
            Always-mono resolve behind_resolve (
              Always-both resolve (resolve_workspace_path-Resolved w input.file_path)
                (Reads-Quiet (resolve_workspace_path-Reads w input.file_path) tt))))
        (λ e _. (refl, refl))
