-- ===== src/Protocol/Requests.antt =====
-- The request types of src/protocol.rs and their `validate` methods, which run before any file
-- work.
pub mod Limits
use hashline_rs.Prelude.{
  ℕ, zero, suc, ◌+◌, ◌≤◌, ◌≡◌, refl, Bool, true, false, not, ◌&&◌, ◌||◌, List, [], ◌∷◌, Option,
  none, some, ltb, ◌==◌, if◌then◌else◌, Result, ok, err, ◌>>=◌, ◌>>◌, Bytes, length, position,
  checked_sub,
}
use hashline_rs.Protocol.Codec.Position.{Position}
use hashline_rs.Protocol.Codec.SnapshotId.{SnapshotId}
use hashline_rs.Protocol.Codec.WriteExpect.{WriteExpect}
use hashline_rs.Protocol.Errors.{
  ContractError, invalid_read_limit, invalid_grep_limit, invalid_context_limit, invalid_glob_limit,
  context_outside_content_mode, zero_start_line, start_line_with_cursor, nul_write_content,
  max_page_lines, max_grep_matches, max_glob_results, max_context_lines, validate_file_size,
}
use hashline_rs.Protocol.Edits.{EditOperation, nul_in_replacement, validate_edit_count}

pub record PageCursor : Type 0 where
  pub snapshot : SnapshotId
  pub next : Position

pub record ReadRequest : Type 0 where
  pub path : Bytes
  pub limit : ℕ
  pub cursor : Option PageCursor
  pub start_line : Option ℕ

abbrev pub is_some {ℓ} : {A : Type ℓ} → Option A → Bool
is_some none = false
is_some (some a) = true

abbrev is_zero : Option ℕ → Bool
is_zero none = false
is_zero (some n) = n == 0

-- outside `1..=cap`
abbrev pub out_of_range : ℕ → ℕ → Bool
out_of_range cap n = n == 0 || ltb cap n

-- `ReadRequest::validate`
unfoldable pub validate_read : ReadRequest → Result ContractError (Unit {0})
validate_read r =
    if out_of_range max_page_lines r.limit
    then err (invalid_read_limit r.limit)
    else if is_zero r.start_line
    then err zero_start_line
    else if is_some r.start_line && is_some r.cursor
    then err start_line_with_cursor
    else ok tt

pub data GrepOutputMode : Type 0 where
  content files_with_matches count : GrepOutputMode

pub record GrepRequest : Type 0 where
  pub pattern : Bytes
  pub path : Option Bytes
  pub glob : Option Bytes
  pub ignore_case : Bool
  pub before_context : Option ℕ
  pub after_context : Option ℕ
  pub context : Option ℕ
  pub max_matches : ℕ
  pub output_mode : GrepOutputMode

abbrev or_zero : Option ℕ → ℕ
or_zero none = 0
or_zero (some n) = n

-- `GrepRequest::effective_context`
unfoldable pub effective_context : GrepRequest → ℕ × ℕ
effective_context r = elim r.context [
  | none ↦ (or_zero r.before_context, or_zero r.after_context)
  | some both ↦ (both, both)
]

-- one round of the loop over the three context counts
abbrev check_context : Option ℕ → Result ContractError (Unit {0})
check_context none = ok tt
check_context (some n) = if ltb max_context_lines n then err (invalid_context_limit n) else ok tt

abbrev pub is_content : GrepOutputMode → Bool
is_content content = true
is_content files_with_matches = false
is_content count = false

-- `GrepRequest::validate`
unfoldable pub validate_grep : GrepRequest → Result ContractError (Unit {0})
validate_grep r =
    if out_of_range max_grep_matches r.max_matches
    then err (invalid_grep_limit r.max_matches)
    else do
      check_context r.before_context
      check_context r.after_context
      check_context r.context
      if not (is_content r.output_mode)
            && (is_some r.before_context || is_some r.after_context || is_some r.context)
          then err context_outside_content_mode
          else ok tt

pub record EditRequest : Type 0 where
  pub file_path : Bytes
  pub snapshot : SnapshotId
  pub edits : List EditOperation

unfoldable pub check_contents : ℕ → List EditOperation → Result ContractError (Unit {0})
check_contents index [] = ok tt
check_contents index (operation ∷ rest) = do
  nul_in_replacement index operation.content
  check_contents (index + 1) rest

-- `EditRequest::validate`
unfoldable pub validate_edit : EditRequest → Result ContractError (Unit {0})
unfolding validate_edit_count check_contents
validate_edit r = do validate_edit_count (length r.edits); check_contents 0 r.edits

pub record WriteRequest : Type 0 where
  pub file_path : Bytes
  pub content : Bytes
  pub expect : WriteExpect

-- `WriteRequest::validate`
unfoldable pub validate_write : WriteRequest → Result ContractError (Unit {0})
unfolding validate_file_size
validate_write r = elim (position 0 r.content) [
  | some byte ↦ err (nul_write_content byte)
  | none ↦ validate_file_size (length r.content)
]

pub record GlobRequest : Type 0 where
  pub pattern : Bytes
  pub path : Option Bytes
  pub max_results : ℕ

-- `GlobRequest::validate`
unfoldable pub validate_glob : GlobRequest → Result ContractError (Unit {0})
validate_glob r =
    if out_of_range max_glob_results r.max_results
    then err (invalid_glob_limit r.max_results)
    else ok tt
