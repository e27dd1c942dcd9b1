-- ===== src/Tools/Read/Ending.antt =====
-- A read ends.
use hashline_rs.Prelude.{ℕ, ◌+◌, ◌≤◌, refl, map_err, arith}
use hashline_rs.Crates.{Crates}
use hashline_rs.Os.Ending.{Ends, done, plain, Ends->>=, Ends-check}
use hashline_rs.Cache.Loading.{get_or_load}
use hashline_rs.Cache.Ending.{get_or_load-Ends}
use hashline_rs.Protocol.Errors.{from, max_file_bytes}
use hashline_rs.Protocol.Requests.{ReadRequest, validate_read}
use hashline_rs.Snapshot.Load.{load}
use hashline_rs.Snapshot.Load.Ending.{load-Ends}
use hashline_rs.Tools.Failures.{map_failure}
use hashline_rs.Tools.Read.{run}
use hashline_rs.Workspace.{Workspace, resolve_workspace_path}
use hashline_rs.Workspace.Ending.{Ends-map_failure, resolve_workspace_path-Ends}

-- A read request ends with a text or an error, in every run in which at most `n` reads are
-- interrupted, when a load has two rounds and one for each byte of the size cap and each of the `n`
-- interruptions.
pub run-Ends :
    (c : Crates) (rounds n : ℕ) (w : Workspace) (input : ReadRequest)
    → max_file_bytes + 2 + n ≤ rounds
    → Ends n (run c rounds w input)
unfolding run
run-Ends c rounds n w input enough = Ends-check (map_err from (validate_read input)) (λ valid _.
    Ends->>= (resolve_workspace_path w input.path) _ (resolve_workspace_path-Ends n w input.path)
      (λ k le path.
        plain (λ a. refl)
          (λ size.
            let got = get_or_load path (load c rounds path) in
            Ends->>= (map_failure _ got) _
              (Ends-map_failure _ got (
                get_or_load-Ends path (load c rounds path)
                  (λ j below. load-Ends c path rounds j (omega (arith, enough)))))
              (λ m less s. done))))
