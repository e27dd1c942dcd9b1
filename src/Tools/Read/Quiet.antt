-- ===== src/Tools/Read/Quiet.antt =====
-- A read changes no file.
use hashline_rs.Prelude.{ℕ, refl, map_err}
use hashline_rs.Crates.{Crates}
use hashline_rs.Os.Quiet.{Reads, done, asked, Reads->>=, Reads-check}
use hashline_rs.Cache.Loading.{get_or_load}
use hashline_rs.Cache.Quiet.{get_or_load-Reads}
use hashline_rs.Protocol.Errors.{from}
use hashline_rs.Protocol.Requests.{ReadRequest, validate_read}
use hashline_rs.Snapshot.Load.{load}
use hashline_rs.Snapshot.Load.Quiet.{load-Reads}
use hashline_rs.Tools.Failures.{map_failure}
use hashline_rs.Tools.Read.{run}
use hashline_rs.Workspace.{Workspace, resolve_workspace_path}
use hashline_rs.Workspace.Quiet.{Reads-map_failure, resolve_workspace_path-Reads}

pub run-Reads :
    (c : Crates) (rounds : ℕ) (w : Workspace) (input : ReadRequest) → Reads (run c rounds w input)
unfolding run
run-Reads c rounds w input = Reads-check (map_err from (validate_read input)) (λ valid.
    Reads->>= (resolve_workspace_path w input.path) _ (resolve_workspace_path-Reads w input.path)
      (λ path. asked refl (λ size.
        let got = get_or_load path (load c rounds path) in
        Reads->>= (map_failure _ got) _
          (Reads-map_failure _ got
            (get_or_load-Reads path (load c rounds path) (load-Reads c path rounds)))
          (λ s. done))))
