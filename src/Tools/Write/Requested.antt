-- ===== src/Tools/Write/Requested.antt =====
-- `write::run` as a client asks for it: behind the validation of the request and the resolution of its path.
use hashline_rs.Prelude.{ℕ, ◌≡◌, refl, [], ◌++◌, Result, ok, err, map_err, none}
use hashline_rs.Crates.{Crates, CratesLaws}
use hashline_rs.Paths.{FilePath}
use hashline_rs.Os.Always.{
  Log, Always, Then, Always->>=, Always-mono, Always-check, Always-both, Always-grows,
}
use hashline_rs.Os.Quiet.{Quiet, Reads-Quiet}
use hashline_rs.Persist.Effects.{outstanding, replaced, Quiet-Stage}
use hashline_rs.Protocol.Errors.{ProtocolError, from}
use hashline_rs.Protocol.Requests.{WriteRequest, validate_write}
use hashline_rs.Workspace.{Workspace, resolve_path, resolve_workspace_path}
use hashline_rs.Workspace.Confinement.{Resolved, resolve_workspace_path-Resolved}
use hashline_rs.Workspace.Quiet.{resolve_workspace_path-Reads}
use hashline_rs.Protocol.Text.Splice.{IsUtf8}
use hashline_rs.Tools.Write.Success.{Written}
use hashline_rs.Tools.Write.Outcome.{run_blocking_lem}
use hashline_rs.Tools.Write.{WriteSuccess, run_blocking, run}

-- The path was resolved by the first calls, and the rest is what the pipeline has done with it.
pub record IsRequested (c : Crates) (w : Workspace) (input : WriteRequest) (log : Log)
    (success : WriteSuccess) : Type 0 where
  pub path : FilePath
  pub before : Log
  pub later : Log
  pub calls : log ≡ later ++ before
  pub resolved : Resolved w input.file_path before (ok path)
  pub outcome : Written c path input w.durability log (ok success)

abbrev pub WriteRequested :
    Crates → Workspace → WriteRequest → Log → Result ProtocolError WriteSuccess → Type 0
WriteRequested c w input log (ok success) = IsRequested c w input log success
WriteRequested c w input log (err e) = (outstanding log ≡ []) × (replaced log ≡ [])

module _ (c : Crates) (laws : CratesLaws c) (w : Workspace) (input : WriteRequest)
    (utf8 : IsUtf8 input.content) (rounds : ℕ) where
  behind_resolve :
      (l : Log) (r : Result ProtocolError FilePath)
      → Resolved w input.file_path l r × Quiet l
      → Then (WriteRequested c w input) (λ path. run_blocking c rounds path input w.durability) l r
  behind_resolve l (err e) (_, quiet) =
      let (g, o, r) = Quiet-Stage c (resolve_path w.root input.file_path) none l quiet in (o, r)
  behind_resolve l (ok path) (resolved, quiet) =
      let pipeline = run_blocking c rounds path input w.durability in
      Always-mono pipeline finished (
        Always-both pipeline (run_blocking_lem c laws rounds path input w.durability utf8 quiet)
          (Always-grows pipeline))
    where
      finished :
          (k : Log) (r : Result ProtocolError WriteSuccess)
          → Written c path input w.durability k r × ((later : Log) × (k ≡ later ++ l))
          → WriteRequested c w input k r
      finished k (ok success) (outcome, (later, e)) = record {
        path = path;
        before = l;
        later = later;
        calls = e;
        resolved = resolved;
        outcome = outcome;
      }
      finished k (err e) (outcome, _) = outcome

  -- For UTF-8 content, whatever the answers are: a success of a write request means that the first
  -- calls resolved the requested path, confined to the root where the workspace is restricted; that
  -- the request expected no file, a load of this path, made by these very calls, found that there
  -- is none, and the content came to this path by one link, or that it named the identity of the
  -- snapshot that this load returned, and the content came to the path by one rename right behind a
  -- look at the destination that found the loaded stamp; that nothing else came to any path; and
  -- that the answer reports the content. An error means that nothing came to any path. Every
  -- created file was renamed or asked to be removed.
  pub run-WriteRequested : Always (WriteRequested c w input) [] (run c rounds w input)
  unfolding run
  run-WriteRequested =
      Always-check (map_err from (validate_write input))
        (λ valid _.
          let resolve = resolve_workspace_path w input.file_path in
          Always->>= (WriteRequested c w input) resolve _ (
            Always-mono resolve behind_resolve (
              Always-both resolve (resolve_workspace_path-Resolved w input.file_path)
                (Reads-Quiet (resolve_workspace_path-Reads w input.file_path) tt))))
        (λ e _. (refl, refl))
