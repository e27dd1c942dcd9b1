-- ===== src/Tests/Files.antt =====
-- Loads, pages and the replacement of files.
use hashline_rs.Prelude.{◌+◌, ◌≡◌, true, [], ◌++◌, none, some, ok, codes, arith}
use hashline_rs.Crates.{plain_crates, plain_crates-laws}
use hashline_rs.Paths.{FilePath, new}
use hashline_rs.Os.Always.{Always}
use hashline_rs.Os.Ending.{Ends}
use hashline_rs.Protocol.Errors.{max_file_bytes}
use hashline_rs.Protocol.Lines.{reference_line_starts}
use hashline_rs.Protocol.Context.{context_lines}
use hashline_rs.Protocol.Versioned.{validate_reference_cursor}
use hashline_rs.Snapshot.Stamp.{pos}
use hashline_rs.Snapshot.Load.{load}
use hashline_rs.Snapshot.Load.Stable.{Loaded, load-IsLoaded}
use hashline_rs.Snapshot.Load.Ending.{load-Ends}
use hashline_rs.Persist.{ExpectedDestination, full, barrier, atomic_write, atomic_create}
use hashline_rs.Persist.Effects.{renamed, linked}
use hashline_rs.Persist.Guard.{atomic_write-Placed}
use hashline_rs.Persist.Replace.{Placed}
use hashline_rs.Persist.Create.{atomic_create-Placed}
use hashline_rs.Render.{render_header, render_snapshot_page}
use hashline_rs.Render.Pages.{
  header_of, shown, rest_of, next_cursor, render_snapshot_page-shown, next_cursor-accepted,
}
use hashline_rs.Tests.Samples.{greek}
use hashline_rs.Tests.Edits.{greek_snapshot, greek_snapshot-WellFormed}

abbrev file_path : FilePath
file_path = new (codes "w/a.txt")

load-IsLoaded_example : Always (Loaded plain_crates file_path) [] (load plain_crates 9 file_path)
load-IsLoaded_example = load-IsLoaded plain_crates plain_crates-laws file_path 9

load-Ends_example : Ends 5 (load plain_crates (max_file_bytes + 7) file_path)
load-Ends_example = load-Ends plain_crates file_path (max_file_bytes + 7) 5 (omega arith)

-- a racy stamp, which the content confirms
abbrev racy_destination : ExpectedDestination
racy_destination = record {
  stamp = record {
    identity = record { device = 1; inode = 2 };
    len = 17;
    modified = record { seconds = pos 3; nanoseconds = pos 4 };
    changed = none;
    racy = true;
  };
  base_id = 7;
}

atomic_write-Placed_example :
    Always
      (Placed plain_crates file_path
        (some racy_destination)
        (renamed file_path (some (codes "new\n"), full)))
      []
      (atomic_write plain_crates file_path (codes "new\n") (some racy_destination) full)
atomic_write-Placed_example =
    atomic_write-Placed plain_crates file_path (some racy_destination) (codes "new\n") full

atomic_create-Placed_example :
    Always
      (Placed plain_crates file_path none (linked file_path (some (codes "new\n"), barrier)))
      []
      (atomic_create file_path (codes "new\n") barrier)
atomic_create-Placed_example = atomic_create-Placed plain_crates file_path (codes "new\n") barrier

-- the second and third of the four lines, and the cursor of the last one
render_snapshot_page-shown_example :
    render_snapshot_page plain_crates greek_snapshot (codes "a.txt") 2 2
    ≡ ok (
        render_header plain_crates (header_of greek_snapshot (codes "a.txt"))
        ++ (shown (context_lines greek (reference_line_starts greek) 2 2)
            ++ rest_of greek_snapshot 3))
unfolding reference_line_starts
render_snapshot_page-shown_example =
    render_snapshot_page-shown plain_crates plain_crates-laws greek_snapshot
      greek_snapshot-WellFormed (codes "a.txt") 2 2 (omega arith) (omega arith) (omega arith)
      (omega arith)

next_cursor-accepted_example :
    validate_reference_cursor (codes "a.txt") greek 7 (next_cursor greek_snapshot 3)
    ≡ ok (record { line = 4; byte = 17 })
unfolding reference_line_starts
next_cursor-accepted_example =
    next_cursor-accepted plain_crates plain_crates-laws greek_snapshot greek_snapshot-WellFormed
      (codes "a.txt") 3 (omega arith)
