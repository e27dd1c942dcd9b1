-- ===== src/Protocol/Versioned/Conflicts.antt =====
-- Stale requests and writes of src/protocol.rs: what the error shows of the current file.
use hashline_rs.Prelude.{ℕ, ◌≡◌, ◌≢◌, refl, true, List, none, some, ok, err, Bytes, length, arith}
use hashline_rs.Protocol.Codec.SnapshotId.{SnapshotId}
use hashline_rs.Protocol.Codec.WriteExpect.{absent, snapshot}
use hashline_rs.Protocol.Errors.{
  ProtocolError, ContextLine, SnapshotHeader, new_header, snapshot_conflict, already_exists,
  snapshot_conflict_code, already_exists_code,
}
use hashline_rs.Protocol.Text.Policy.{IsText, IsText→validate_text}
use hashline_rs.Protocol.Lines.{reference_line_starts}
use hashline_rs.Protocol.Context.{reference_header}
use hashline_rs.Protocol.Context.Window.{IsWindow, reference_context-IsWindow}
use hashline_rs.Protocol.Requests.{
  PageCursor, EditRequest, WriteRequest, validate_edit, validate_write,
}
use hashline_rs.Protocol.Versioned.{
  first_line, snapshot_conflict_message, already_exists_message, apply_versioned_reference_edits,
  validate_reference_cursor, validate_reference_write, decide_write,
}

-- The header of the current file: its identity, its number of lines and its length.
abbrev pub current_header : Bytes → SnapshotId → Bytes → SnapshotHeader
current_header path id text = record {
  path = path;
  snapshot = id;
  lines = length (reference_line_starts text);
  bytes = length text;
}

pub reference_header-current :
    (path : Bytes) (id : SnapshotId) (text : Bytes)
    → IsText text
    → reference_header path id text ≡ ok (current_header path id text)
unfolding reference_header new_header reference_line_starts
reference_header-current path id text t =
    let small = t.small in ground (arith, IsText→validate_text text t)

-- A retryable conflict that names the requested identity, and shows the current file round a line.
pub record IsConflict (requested : SnapshotId) (header : SnapshotHeader) (text : Bytes) (line : ℕ)
    (e : ProtocolError) : Type 0 where
  pub code_eq : e.error_code ≡ snapshot_conflict_code
  pub retry : e.can_retry ≡ true
  pub shown :
      (context : List ContextLine) × (e.conflict
        ≡ some
            (record { requested_snapshot = requested; current_header = header; context = context }))
      × IsWindow text line context
  pub no_existing : e.existing ≡ none

pub record IsExisting (header : SnapshotHeader) (text : Bytes) (e : ProtocolError) : Type 0 where
  pub code_eq : e.error_code ≡ already_exists_code
  pub retry : e.can_retry ≡ true
  pub shown :
      (context : List ContextLine) × (e.existing
        ≡ some (record { current_header = header; context = context }))
      × IsWindow text 1 context
  pub no_conflict : e.conflict ≡ none

refusal-IsConflict :
    (requested : SnapshotId) (header : SnapshotHeader) (text : Bytes) (line : ℕ)
    (context : List ContextLine) (message : Bytes)
    → IsWindow text line context
    → (e : ProtocolError) × (snapshot_conflict requested header context message ≡ ok e)
      × IsConflict requested header text line e
unfolding snapshot_conflict
refusal-IsConflict requested header text line context message w =
    let few = w.few in
    (
      record {
        error_code = snapshot_conflict_code;
        message = message;
        can_retry = true;
        conflict =
            some (record {
              requested_snapshot = requested;
              current_header = header;
              context = context;
            });
        existing = none;
      },
      ground arith,
      record { code_eq = refl; retry = refl; shown = (context, refl, w); no_existing = refl },
    )

refusal-IsExisting :
    (header : SnapshotHeader) (text : Bytes) (context : List ContextLine) (message : Bytes)
    → IsWindow text 1 context
    → (e : ProtocolError) × (already_exists header context message ≡ ok e)
      × IsExisting header text e
unfolding already_exists
refusal-IsExisting header text context message w =
    let few = w.few in
    (
      record {
        error_code = already_exists_code;
        message = message;
        can_retry = true;
        conflict = none;
        existing = some (record { current_header = header; context = context });
      },
      ground arith,
      record { code_eq = refl; retry = refl; shown = (context, refl, w); no_conflict = refl },
    )

module _ (text : Bytes) (id : SnapshotId) (valid : IsText text) where
  -- On a valid text, a valid edit request that names another snapshot is refused with a retryable
  -- conflict that names both, whose header is that of the current text, and whose context is the
  -- lines of this text round the first named line, with their numbers, positions and contents.
  pub apply_versioned_reference_edits-stale :
      (request : EditRequest)
      → validate_edit request ≡ ok tt
      → request.snapshot ≢ id
      → (e : ProtocolError) × (apply_versioned_reference_edits text id request ≡ err e)
        × IsConflict request.snapshot
            (current_header request.file_path id text)
            text
            (first_line request.edits)
            e
  unfolding apply_versioned_reference_edits
  apply_versioned_reference_edits-stale request accepted other =
      let (context, found, w) = reference_context-IsWindow text (first_line request.edits) valid in
      let (e, made, c) =
        refusal-IsConflict request.snapshot (current_header request.file_path id text) text
          (first_line request.edits) context snapshot_conflict_message w in
      (e, ground (arith, reference_header-current request.file_path id text valid), c)

  -- On a valid text, a cursor of another snapshot is refused with a retryable conflict that names
  -- both, whose header is that of the current text, and whose context is the lines of this text
  -- round the cursor's line, with their numbers, positions and contents.
  pub validate_reference_cursor-stale :
      (path : Bytes) (cursor : PageCursor)
      → cursor.snapshot ≢ id
      → (e : ProtocolError) × (validate_reference_cursor path text id cursor ≡ err e)
        × IsConflict cursor.snapshot (current_header path id text) text cursor.next.line e
  unfolding validate_reference_cursor
  validate_reference_cursor-stale path cursor other =
      let (context, found, w) = reference_context-IsWindow text cursor.next.line valid in
      let (e, made, c) =
        refusal-IsConflict cursor.snapshot (current_header path id text) text cursor.next.line
          context snapshot_conflict_message w in
      (e, ground (arith, reference_header-current path id text valid), c)

  -- A valid write that expects no file, over a file with valid text, is refused with a retryable
  -- error that shows the header of that file and its first lines, with their numbers, positions and
  -- contents.
  pub validate_reference_write-exists :
      (request : WriteRequest)
      → validate_write request ≡ ok tt
      → request.expect ≡ absent
      → (e : ProtocolError) × (validate_reference_write (some (text, id)) request ≡ err e)
        × IsExisting (current_header request.file_path id text) text e
  unfolding validate_reference_write decide_write
  validate_reference_write-exists request accepted expected =
      let (context, found, w) = reference_context-IsWindow text 1 valid in
      let header = reference_header-current request.file_path id text valid in
      let (e, made, x) =
        refusal-IsExisting (current_header request.file_path id text) text context
          already_exists_message w in
      (e, rw (accepted, expected) (ground (arith, header)), x)

  -- A valid write that expects another identity than the current one, over a file with valid text,
  -- is refused with a retryable conflict that names both, and shows the header of that file and its
  -- first lines, with their numbers, positions and contents.
  pub validate_reference_write-stale :
      (request : WriteRequest) (requested : SnapshotId)
      → validate_write request ≡ ok tt
      → request.expect ≡ snapshot requested
      → requested ≢ id
      → (e : ProtocolError) × (validate_reference_write (some (text, id)) request ≡ err e)
        × IsConflict requested (current_header request.file_path id text) text 1 e
  unfolding validate_reference_write decide_write
  validate_reference_write-stale request requested accepted expected other =
      let (context, found, w) = reference_context-IsWindow text 1 valid in
      let header = reference_header-current request.file_path id text valid in
      let (e, made, x) =
        refusal-IsConflict requested (current_header request.file_path id text) text 1 context
          snapshot_conflict_message w in
      (e, rw (accepted, expected) (ground (arith, header)), x)
