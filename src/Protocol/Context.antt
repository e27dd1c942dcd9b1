-- ===== src/Protocol/Context.antt =====
-- `reference_header` and `reference_context` of src/protocol.rs: the recovery data of a conflict.
pub mod Ending
pub mod Window
use hashline_rs.Prelude.{
  ℕ, zero, suc, ◌+◌, ◌-◌, ◌≡◌, refl, min, max, Bool, ◌&&◌, List, [], ◌∷◌, Option, none, some, ltb,
  leb, ◌==◌, if◌then◌else◌, Result, ok, err, ◌>>=◌, Bytes, codes, length, get_elem?, get_or, slice,
  saturating_add, position,
}
use hashline_rs.Protocol.Codec.SnapshotId.{SnapshotId}
use hashline_rs.Protocol.Errors.{ContractError, ContextLine, SnapshotHeader, new_header}
use hashline_rs.Protocol.Text.{validate_text, from_utf8}
use hashline_rs.Protocol.Lines.{newline, reference_line_starts}

unfoldable pub reference_header : Bytes → SnapshotId → Bytes → Result ContractError SnapshotHeader
unfolding new_header
reference_header path snapshot bytes = do
  text ← validate_text bytes
  new_header path snapshot (length (reference_line_starts text)) (length bytes)

-- `text.as_bytes()[end - 1] == byte`, guarded by `end > start`
abbrev pub ends_with : Bytes → ℕ → ℕ → ℕ → Bool
ends_with text start end byte = ltb start end && get_or text (end - 1) 0 == byte

-- the end of a line's content: without a line feed, and without a carriage return before it
unfoldable pub content_end : Bytes → ℕ → ℕ → ℕ
content_end text start raw_end =
    if ends_with text start raw_end newline
    then if ends_with text start (raw_end - 1) 0x0d then raw_end - 2 else raw_end - 1
    else raw_end

-- the body of the loop: the numbered line, its start and its content
unfoldable pub context_line : Bytes → List ℕ → ℕ → ContextLine
unfolding content_end
context_line text starts line =
    let start = get_or starts (line - 1) 0 in
    let raw_end = get_or starts line (length text) in
    record {
      position = record { line = line; byte = start };
      content = slice start (content_end text start raw_end) text;
    }

-- `count` lines from `line` on
unfoldable pub context_lines : Bytes → List ℕ → ℕ → ℕ → List ContextLine
context_lines text starts line zero = []
context_lines text starts line (suc count) =
    context_line text starts line ∷ context_lines text starts (line + 1) count

-- `center_line.clamp(1, line_count)`
abbrev pub center_of : ℕ → ℕ → ℕ
center_of line_count center_line = min (max center_line 1) line_count

abbrev pub end_of : ℕ → ℕ → ℕ
end_of line_count center = min (saturating_add center 2) line_count

abbrev pub start_of : ℕ → ℕ → ℕ
start_of line_count center = max (max (center - 2) 1) (max (end_of line_count center - 4) 1)

unfoldable pub reference_context : Bytes → ℕ → Result ContractError (List ContextLine)
unfolding context_line context_lines
reference_context bytes center_line = do
  text ← validate_text bytes
  let starts = reference_line_starts text
  let line_count = length starts
  let center = center_of line_count center_line
  let start_line = start_of line_count center
  ok (context_lines text starts start_line (end_of line_count center + 1 - start_line))

context_test :
    reference_context (codes "a\nbc\r\n") 2
    ≡ ok (
        (record { position = record { line = 1; byte = 0 }; content = codes "a" })
        ∷ (record { position = record { line = 2; byte = 2 }; content = codes "bc" })
        ∷ (record { position = record { line = 3; byte = 6 }; content = [] })
        ∷ [])
unfolding reference_context validate_text reference_line_starts position from_utf8
context_test = refl
