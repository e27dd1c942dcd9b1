-- ===== src/Protocol/Errors.antt =====
-- The error types of src/protocol.rs: contract errors, the stable error codes, and the structured
-- failure of one tool call.
use hashline_rs.Prelude.{
  ℕ, zero, suc, ◌>>=◌, Bool, true, false, List, ◌++◌, Option, none, some, Result, ok, err, ltb,
  if◌then◌else◌, Bytes, codes, length, ◌^◌, ◌-◌,
}
use hashline_rs.Protocol.Codec.Decimal.{decimal}
use hashline_rs.Protocol.Codec.Position
use hashline_rs.Protocol.Codec.Position.{Position}
use hashline_rs.Protocol.Codec.SnapshotId.{SnapshotId}

-- Caps on requests and responses.
abbrev pub max_page_lines : ℕ
max_page_lines = 2000

abbrev pub max_grep_matches : ℕ
max_grep_matches = 200

abbrev pub max_glob_results : ℕ
max_glob_results = 1000

abbrev pub max_context_lines : ℕ
max_context_lines = 2000

abbrev pub max_edit_operations : ℕ
max_edit_operations = 1024

-- i64::MAX
abbrev pub max_file_bytes : ℕ
max_file_bytes = 2 ^ 63 - 1

abbrev pub conflict_context_lines : ℕ
conflict_context_lines = 5

pub data ContractError : Type 0 where
  invalid_read_limit invalid_grep_limit invalid_context_limit invalid_glob_limit : ℕ → ContractError
  context_outside_content_mode zero_start_line start_line_with_cursor : ContractError
  empty_edit_batch : ContractError
  too_many_edits : ℕ → ContractError
  nul_replacement : ℕ → ℕ → ContractError
  nul_write_content nul_file invalid_utf8 file_too_large : ℕ → ContractError
  invalid_line_count : ContractError
  invalid_position : Position → ContractError
  reversed_range : Position → Position → ContractError
  overlapping_edits : ℕ → ℕ → ContractError
  output_length_overflow : ContractError
  too_many_conflict_lines : ℕ → ContractError

pub data ErrorCode : Type 0 where
  invalid_request invalid_snapshot invalid_position_code invalid_range : ErrorCode
  overlapping_edits_code invalid_utf8_code binary_file file_too_large_code : ErrorCode
  not_found not_a_file permission_denied root_escape : ErrorCode
  snapshot_conflict_code already_exists_code invalid_pattern io : ErrorCode

-- `ErrorCode::retryable`
unfoldable pub retryable : ErrorCode → Bool
retryable not_found = true
retryable permission_denied = true
retryable snapshot_conflict_code = true
retryable already_exists_code = true
retryable io = true
retryable _ = false

-- `ContractError::code`
unfoldable pub code : ContractError → ErrorCode
code (invalid_read_limit _) = invalid_request
code (invalid_grep_limit _) = invalid_request
code (invalid_context_limit _) = invalid_request
code (invalid_glob_limit _) = invalid_request
code context_outside_content_mode = invalid_request
code zero_start_line = invalid_request
code start_line_with_cursor = invalid_request
code empty_edit_batch = invalid_request
code (too_many_edits _) = invalid_request
code invalid_line_count = invalid_request
code (too_many_conflict_lines _) = invalid_request
code (nul_replacement _ _) = binary_file
code (nul_write_content _) = binary_file
code (nul_file _) = binary_file
code (invalid_utf8 _) = invalid_utf8_code
code (file_too_large _) = file_too_large_code
code output_length_overflow = file_too_large_code
code (invalid_position _) = invalid_position_code
code (reversed_range _ _) = invalid_range
code (overlapping_edits _ _) = overlapping_edits_code

-- the `#[error("…")]` texts of `ContractError`
unfoldable pub to_string : ContractError → Bytes
to_string (invalid_read_limit l) =
    codes "read limit must be in 1..=" ++ decimal max_page_lines ++ codes ", got " ++ decimal l
to_string (invalid_grep_limit l) =
    codes "grep max_matches must be in 1..="
    ++ decimal max_grep_matches
    ++ codes ", got "
    ++ decimal l
to_string (invalid_context_limit l) =
    codes "grep context must be <= " ++ decimal max_context_lines ++ codes ", got " ++ decimal l
to_string (invalid_glob_limit l) =
    codes "glob max_results must be in 1..="
    ++ decimal max_glob_results
    ++ codes ", got "
    ++ decimal l
to_string context_outside_content_mode = codes "grep context requires output_mode \"content\""
to_string zero_start_line = codes "read start_line must be at least 1"
to_string start_line_with_cursor = codes "read start_line cannot be combined with a cursor"
to_string empty_edit_batch = codes "edit batch must contain at least one operation"
to_string (too_many_edits n) =
    codes "edit batch has "
    ++ decimal n
    ++ codes " operations; maximum is "
    ++ decimal max_edit_operations
to_string (nul_replacement i b) =
    codes "edit " ++ decimal i ++ codes " replacement contains NUL at byte " ++ decimal b
to_string (nul_write_content b) = codes "write content contains NUL at byte " ++ decimal b
to_string (nul_file b) = codes "file contains NUL at byte " ++ decimal b
to_string (invalid_utf8 b) = codes "file is invalid UTF-8 at byte " ++ decimal b
to_string (file_too_large n) =
    codes "file has " ++ decimal n ++ codes " bytes; maximum is " ++ decimal max_file_bytes
to_string invalid_line_count = codes "snapshot line count must be at least one"
to_string (invalid_position p) =
    codes "position " ++ Position.display p ++ codes " is not a valid boundary in the snapshot"
to_string (reversed_range s e) =
    codes "range start " ++ Position.display s ++ codes " follows end " ++ Position.display e
to_string (overlapping_edits a b) =
    codes "edit " ++ decimal a ++ codes " overlaps edit " ++ decimal b
to_string output_length_overflow = codes "edited output length overflowed"
to_string (too_many_conflict_lines n) =
    codes "snapshot conflict has "
    ++ decimal n
    ++ codes " context lines; maximum is "
    ++ decimal conflict_context_lines

-- `validate_file_size`
unfoldable pub validate_file_size : ℕ → Result ContractError (Unit {0})
validate_file_size bytes = if ltb max_file_bytes bytes then err (file_too_large bytes) else ok tt

pub record SnapshotHeader : Type 0 where
  pub path : Bytes
  pub snapshot : SnapshotId
  pub lines : ℕ
  pub bytes : ℕ

pub record ContextLine : Type 0 where
  pub position : Position
  pub content : Bytes

pub record SnapshotConflict : Type 0 where
  pub requested_snapshot : SnapshotId
  pub current_header : SnapshotHeader
  pub context : List ContextLine

pub record ExistingFile : Type 0 where
  pub current_header : SnapshotHeader
  pub context : List ContextLine

pub record ProtocolError : Type 0 where
  pub error_code : ErrorCode
  pub message : Bytes
  pub can_retry : Bool
  pub conflict : Option SnapshotConflict
  pub existing : Option ExistingFile

-- `ProtocolError::new`
unfoldable pub new : ErrorCode → Bytes → ProtocolError
unfolding retryable
new c m = record {
  error_code = c;
  message = m;
  can_retry = retryable c;
  conflict = none;
  existing = none;
}

-- `From<ContractError> for ProtocolError`
unfoldable pub from : ContractError → ProtocolError
unfolding new code
from e = new (code e) (to_string e)

-- `ProtocolError::snapshot_conflict`
unfoldable pub snapshot_conflict :
    SnapshotId → SnapshotHeader → List ContextLine → Bytes → Result ContractError ProtocolError
snapshot_conflict requested header context m =
    if ltb conflict_context_lines (length context)
    then err (too_many_conflict_lines (length context))
    else ok (record {
      error_code = snapshot_conflict_code;
      message = m;
      can_retry = true;
      conflict =
          some
            (record { requested_snapshot = requested; current_header = header; context = context });
      existing = none;
    })

-- `ProtocolError::already_exists`
unfoldable pub already_exists :
    SnapshotHeader → List ContextLine → Bytes → Result ContractError ProtocolError
already_exists header context m =
    if ltb conflict_context_lines (length context)
    then err (too_many_conflict_lines (length context))
    else ok (record {
      error_code = already_exists_code;
      message = m;
      can_retry = true;
      conflict = none;
      existing = some (record { current_header = header; context = context });
    })

-- `SnapshotHeader::new`
unfoldable pub new_header : Bytes → SnapshotId → ℕ → ℕ → Result ContractError SnapshotHeader
unfolding validate_file_size
new_header path snapshot zero bytes = err invalid_line_count
new_header path snapshot (suc n) bytes =
    (validate_file_size bytes >>= λ _.
    ok (record { path = path; snapshot = snapshot; lines = suc n; bytes = bytes }))
