-- ===== src/Tools/Read/Provenance.antt =====
-- What the text that a read returns is made of.
use hashline_rs.Prelude.{ℕ, ◌≡◌, refl, [], ◌∷◌, ◌++◌, Result, ok, err, map_err, Bytes, codes}
use hashline_rs.Crates.{Crates, CratesLaws}
use hashline_rs.Paths.{FilePath}
use hashline_rs.Os.{ret, call, ◌>>=◌, metadata}
use hashline_rs.Os.Always.{
  event, Log, Always, ends, asks, Then, Always->>=, Always-mono, Always-check, Always-both,
  Always-grows,
}
use hashline_rs.Os.Quiet.{Quiet, Reads-Quiet}
use hashline_rs.Cache.Loading.{get_or_load}
use hashline_rs.Cache.Served.{Served, Got, get_or_load-Got}
use hashline_rs.Cache.Quiet.{get_or_load-Reads}
use hashline_rs.Protocol.Errors.{ProtocolError, from}
use hashline_rs.Protocol.Requests.{ReadRequest, validate_read}
use hashline_rs.Snapshot.{Snapshot, SnapshotError, IoError}
use hashline_rs.Snapshot.Stamp.{Metadata}
use hashline_rs.Snapshot.Load.{load}
use hashline_rs.Snapshot.Load.Quiet.{load-Reads}
use hashline_rs.Workspace.{Workspace, resolve_workspace_path}
use hashline_rs.Workspace.Confinement.{Resolved, resolve_workspace_path-Resolved}
use hashline_rs.Workspace.Quiet.{resolve_workspace_path-Reads}
use hashline_rs.Tools.Failures.{snapshot_protocol_error, map_failure, Always-map_failure}
use hashline_rs.Tools.Read.{answer, run}

-- The first calls resolved the path, the rest served a snapshot of it, and this one is shown.
pub record IsRead (c : Crates) (w : Workspace) (input : ReadRequest) (log : Log) (text : Bytes)
    : Type 0 where
  pub path : FilePath
  pub before : Log
  pub later : Log
  pub snapshot : Snapshot
  pub size : Result IoError Metadata
  pub calls : log ≡ later ++ event (metadata path) size ∷ before
  pub resolved : Resolved w input.path before (ok path)
  pub served : Served c path log snapshot
  pub answered : answer c path snapshot input ≡ ok text

pub Answered : Crates → Workspace → ReadRequest → Log → Result ProtocolError Bytes → Type 0
Answered c w input log (ok text) = Quiet log × IsRead c w input log text
Answered c w input log (err e) = Quiet log

module _ (c : Crates) (laws : CratesLaws c) (rounds : ℕ) (w : Workspace) (input : ReadRequest) where
  abbrev failed : FilePath → SnapshotError → ProtocolError
  failed path = snapshot_protocol_error (codes "read") path

  behind_load :
      (path : FilePath) (before : Log) (size : Result IoError Metadata)
      → Resolved w input.path before (ok path)
      → (l : Log) (r : Result SnapshotError Snapshot)
      → Got c path l r
        × (Quiet l × ((later : Log) × (l ≡ later ++ event (metadata path) size ∷ before)))
      → Then (Answered c w input) (λ s. ret (answer c path s input)) l (map_err (failed path) r)
  unfolding Got Answered
  behind_load path before size resolved l (err e) (g, (quiet, grown)) = quiet
  behind_load path before size resolved l (ok s) (served, (quiet, (later, e))) =
      ends (shown (answer c path s input) refl)
    where
      shown : (r : Result ProtocolError Bytes) → answer c path s input ≡ r → Answered c w input l r
      shown (err f) a = quiet
      shown (ok text) a = (
        quiet,
        record {
          path = path;
          before = before;
          later = later;
          snapshot = s;
          size = size;
          calls = e;
          resolved = resolved;
          served = served;
          answered = a;
        },
      )

  behind_resolve :
      (l : Log) (r : Result ProtocolError FilePath)
      → Resolved w input.path l r × Quiet l
      → Then
          (Answered c w input)
          (λ path. call (metadata path) λ size.
            map_failure (failed path) (get_or_load path (load c rounds path)) >>= λ s.
            ret (answer c path s input))
          l
          r
  unfolding Answered
  behind_resolve l (err e) (_, quiet) = quiet
  behind_resolve l (ok path) (resolved, quiet) = asks (λ size.
      let got = get_or_load path (load c rounds path) in
      Always->>= (Answered c w input) (map_failure (failed path) got) _ (
        Always-map_failure (failed path) got (
          Always-mono got (behind_load path l size resolved) (
            Always-both got (get_or_load-Got c path laws rounds) (
              Always-both got
                (Reads-Quiet
                  (get_or_load-Reads path (load c rounds path) (load-Reads c path rounds))
                  (refl, quiet))
                (Always-grows got))))))

  -- Whatever the answers are, a read changes no file. The text that it returns is the answer for a
  -- snapshot that the cache or a load has served for the path that the first calls resolved the
  -- request's path to.
  pub run-Answered : Always (Answered c w input) [] (run c rounds w input)
  unfolding run Answered
  run-Answered =
      Always-check (map_err from (validate_read input))
        (λ valid _.
          let resolve = resolve_workspace_path w input.path in
          Always->>= (Answered c w input) resolve _ (
            Always-mono resolve behind_resolve (
              Always-both resolve (resolve_workspace_path-Resolved w input.path)
                (Reads-Quiet (resolve_workspace_path-Reads w input.path) tt))))
        (λ e _. tt)
