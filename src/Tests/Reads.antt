-- ===== src/Tests/Reads.antt =====
-- Paths in a restricted workspace, and reads.
use hashline_rs.Prelude.{◌≡◌, refl, [], none, some, codes, arith}
use hashline_rs.Crates.{plain_crates, plain_crates-laws}
use hashline_rs.Os.Always.{Always}
use hashline_rs.Paths.{new}
use hashline_rs.Protocol.Requests.{ReadRequest, validate_read}
use hashline_rs.Tools.Read
use hashline_rs.Tools.Read.Answer.{reference_answer, answer-reference}
use hashline_rs.Tools.Read.Provenance.{Answered, run-Answered}
use hashline_rs.Workspace.{resolve_workspace_path}
use hashline_rs.Workspace.Confinement.{Resolved, resolve_workspace_path-Resolved}
use hashline_rs.Tests.Samples.{workspace}
use hashline_rs.Tests.Edits.{greek_snapshot, greek_snapshot-WellFormed}

resolve_workspace_path-Resolved_example :
    Always
      (Resolved workspace (codes "sub/a.txt"))
      []
      (resolve_workspace_path workspace (codes "sub/a.txt"))
resolve_workspace_path-Resolved_example =
    resolve_workspace_path-Resolved workspace (codes "sub/a.txt")

-- two lines from the second one on
abbrev two_lines : ReadRequest
two_lines = record {
  path = codes "a.txt";
  limit = 2;
  cursor = some (record { snapshot = 7; next = record { line = 2; byte = 6 } });
  start_line = none;
}

answer-reference_example :
    Read.answer plain_crates (new (codes "/w/a.txt")) greek_snapshot two_lines
    ≡ reference_answer plain_crates (new (codes "/w/a.txt")) greek_snapshot two_lines
unfolding validate_read
answer-reference_example =
    answer-reference plain_crates plain_crates-laws greek_snapshot greek_snapshot-WellFormed
      (new (codes "/w/a.txt")) two_lines refl (omega arith)

run-Answered_example :
    Always
      (Answered plain_crates workspace two_lines)
      []
      (Read.run plain_crates 9 workspace two_lines)
run-Answered_example = run-Answered plain_crates plain_crates-laws 9 workspace two_lines
