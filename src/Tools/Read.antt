-- ===== src/Tools/Read.antt =====
-- `read::run` of src/read.rs: a page of a file from a cursor or a line on.
pub mod Answer
pub mod Provenance
pub mod Quiet
pub mod Ending
use hashline_rs.Prelude.{
  ℕ, Bool, true, false, ◌&&◌, ◌==◌, ltb, Option, none, some, if◌then◌else◌, Result, ok, err,
  map_err, Bytes, codes,
}
use hashline_rs.Crates.{Crates}
use hashline_rs.Paths.{FilePath}
use hashline_rs.Os.{Task, ret, call, ◌>>=◌, metadata}
use hashline_rs.Cache.Loading.{get_or_load}
use hashline_rs.Protocol.Codec.Position
use hashline_rs.Protocol.Codec.Position.{Position}
use hashline_rs.Protocol.Errors.{ProtocolError, from, invalid_position, SnapshotHeader, new_header}
use hashline_rs.Protocol.Requests.{PageCursor, ReadRequest, is_some, validate_read}
use hashline_rs.Protocol.Versioned.{validate_reference_cursor}
use hashline_rs.Render.{render_header, render_snapshot_page}
use hashline_rs.Snapshot.{Snapshot, validate_boundary}
use hashline_rs.Snapshot.Load.{load}
use hashline_rs.Workspace.{Workspace, resolve_workspace_path}
use hashline_rs.Tools.Failures.{snapshot_protocol_error, map_failure}

-- `is_ok`
abbrev pub is_ok {ℓ κ} : {E : Type ℓ} {A : Type κ} → Result E A → Bool
is_ok (ok a) = true
is_ok (err e) = false

-- `.map(|position| position.line())`
abbrev pub line_of : Result ProtocolError Position → Result ProtocolError ℕ
line_of (ok p) = ok p.line
line_of (err e) = err e

unfoldable pub validate_cursor_on_snapshot :
    Crates → Snapshot → Bytes → PageCursor → Result ProtocolError ℕ
validate_cursor_on_snapshot c s path cursor =
    if cursor.snapshot == s.id && is_ok (validate_boundary c s cursor.next)
    then ok cursor.next.line
    else line_of (validate_reference_cursor path s.text s.id cursor)

abbrev first_position : Position
first_position = record { line = 1; byte = 0 }

abbrev or_first : {E : Type 0} → Result E Position → Position
or_first (ok p) = p
or_first (err e) = first_position

unfoldable pub cursor_position_or_first : Option PageCursor → ℕ → Position
cursor_position_or_first (some cursor) start_line = cursor.next
cursor_position_or_first none start_line = or_first (Position.new start_line 0)

-- `unwrap_or(1)`
abbrev pub or_one : Option ℕ → ℕ
or_one none = 1
or_one (some n) = n

unfoldable pub start_line_of : Crates → Snapshot → ReadRequest → Result ProtocolError ℕ
unfolding validate_cursor_on_snapshot
start_line_of c s input = elim input.cursor [
  | some cursor ↦ validate_cursor_on_snapshot c s input.path cursor
  | none ↦ ok (or_one input.start_line)
]

-- `.map(|header| header.render())`
abbrev rendered : {E : Type 0} → Crates → Result E SnapshotHeader → Result E Bytes
rendered c (ok h) = ok (render_header c h)
rendered c (err e) = err e

-- the answer from a line on
unfoldable pub page_from :
    Crates → FilePath → Snapshot → ReadRequest → ℕ → Result ProtocolError Bytes
unfolding cursor_position_or_first
page_from c path s input start_line =
    if ltb s.line_count start_line
    then (if is_some input.cursor
        then err (from (invalid_position (cursor_position_or_first input.cursor start_line)))
        else map_err from (rendered c (new_header input.path s.id s.line_count s.byte_len)))
    else map_err (snapshot_protocol_error (codes "read") path)
        (render_snapshot_page c s input.path start_line input.limit)

-- behind the load
unfoldable pub answer : Crates → FilePath → Snapshot → ReadRequest → Result ProtocolError Bytes
unfolding start_line_of page_from
answer c path s input = elim (start_line_of c s input) [
  | err e ↦ err e
  | ok start_line ↦ page_from c path s input start_line
]

-- `read::run`. The size in the first metadata only chooses the thread that the work is done on.
unfoldable pub run : Crates → ℕ → Workspace → ReadRequest → Task ProtocolError Bytes
unfolding validate_read answer
run c rounds w input = ret (map_err from (validate_read input)) >>= λ valid.
    resolve_workspace_path w input.path >>= λ path. call (metadata path) λ size.
      map_failure (snapshot_protocol_error (codes "read") path)
        (get_or_load path (load c rounds path))
      >>= λ s. ret (answer c path s input)
