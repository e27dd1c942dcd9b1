-- ===== src/Render.antt =====
-- The read pages of src/render.rs, with the wire forms of src/protocol.rs that they are made of.
pub mod Pages
use hashline_rs.Prelude.{
  ℕ, zero, suc, ◌+◌, ◌-◌, ◌≡◌, refl, min, max, Bool, ◌&&◌, List, [], ◌∷◌, ◌++◌, Option, none, some,
  ltb, leb, ◌==◌, if◌then◌else◌, Result, ok, err, ◌>>=◌, ◌>>◌, ok_or, map_err, Bytes, codes, length,
  get_or, slice, saturating_add,
}
use hashline_rs.Crates.{Crates}
use hashline_rs.Protocol.Codec.Decimal.{decimal}
use hashline_rs.Protocol.Codec.Position
use hashline_rs.Protocol.Codec.Position.{Position}
use hashline_rs.Protocol.Codec.SnapshotId
use hashline_rs.Protocol.Errors.{SnapshotHeader, new_header}
use hashline_rs.Protocol.Lines.{newline}
use hashline_rs.Protocol.Requests.{PageCursor}
use hashline_rs.Snapshot.{
  Snapshot, SnapshotError, contract, offset_failure, line_start, line_offsets,
}
use hashline_rs.Snapshot.Offsets.{address_invariant}

-- `SnapshotHeader::render`
unfoldable pub render_header : Crates → SnapshotHeader → Bytes
render_header c h =
    codes "[hashline snapshot="
    ++ (SnapshotId.display h.snapshot
        ++ (codes " lines="
            ++ (decimal h.lines
                ++ (codes " bytes="
                    ++ (decimal h.bytes
                        ++ (codes " path=" ++ (c.json_string h.path ++ codes "]")))))))

-- `PageCursor::render_footer`
unfoldable pub render_footer : PageCursor → Bytes
render_footer cursor =
    codes "[hashline next snapshot="
    ++ (SnapshotId.display cursor.snapshot
        ++ (codes " position=" ++ (Position.display cursor.next ++ codes "]")))

-- `render_read_line`
unfoldable pub render_read_line : Position → Bytes → Bytes
render_read_line position content = Position.display position ++ b'|' ∷ content

-- `content_end > start && bytes[content_end - 1] == byte`
abbrev ends_in : Bytes → ℕ → ℕ → ℕ → Bool
ends_in bytes start content_end byte =
    ltb start content_end && get_or bytes (content_end - 1) 0 == byte

-- `display_line_content`
unfoldable pub display_line_content : Bytes → ℕ → ℕ → Bytes
display_line_content bytes start end =
    if ends_in bytes start end newline
    then if ends_in bytes start (end - 1) 0x0d
      then slice start (end - 1 - 1) bytes
      else slice start (end - 1) bytes
    else slice start end bytes

-- `snapshot.line_start(line)?.ok_or(AddressInvariant)?`
unfoldable pub required_start : Crates → Snapshot → ℕ → Result SnapshotError ℕ
required_start c s line =
    (line_start c s line >>= λ found. ok_or (offset_failure address_invariant) found)

-- `Position::new(..).map_err(..)`
abbrev pub place : ℕ → ℕ → Result SnapshotError Position
place line byte = map_err (λ _. offset_failure address_invariant) (Position.new line byte)

-- one round of the loop over the lines of the page
unfoldable pub render_line : Crates → Snapshot → ℕ → Result SnapshotError Bytes
unfolding required_start display_line_content
render_line c s line = do
  start ← required_start c s line
  end ← (if ltb line s.line_count then required_start c s (line + 1) else ok s.byte_len)
  position ← place line start
  ok (0x0a ∷ Position.display position ++ b'|' ∷ display_line_content s.text start end)

-- the loop, over `out`
unfoldable pub render_lines : Crates → Snapshot → ℕ → ℕ → Bytes → Result SnapshotError Bytes
render_lines c s line zero out = ok out
render_lines c s line (suc count) out = do
  shown ← render_line c s line
  render_lines c s (line + 1) count (out ++ shown)

-- the reads of line starts that only size the buffer
unfoldable pub size_buffer : Crates → Snapshot → ℕ → ℕ → Result SnapshotError (Unit {0})
size_buffer c s start_line last = do
  first ← line_start c s start_line
  last_start ← line_start c s last
  if ltb last s.line_count then (line_start c s (last + 1) >>= λ _. ok tt) else ok tt

-- the cursor footer, where lines remain behind `last`
unfoldable pub render_rest : Crates → Snapshot → ℕ → Bytes → Result SnapshotError Bytes
unfolding required_start render_footer
render_rest c s last out =
    if ltb last s.line_count
    then (do
      next_byte ← required_start c s (last + 1)
      next ← place (last + 1) next_byte
      ok (out ++ 0x0a ∷ render_footer (record { snapshot = s.id; next = next })))
    else ok out

-- `start_line.saturating_add(limit).saturating_sub(1).min(line_count)`
abbrev pub last_line : ℕ → ℕ → ℕ → ℕ
last_line line_count start_line limit = min (saturating_add start_line limit - 1) line_count

-- a start behind the last line: the header alone, and the one line of an empty text
header_only : Crates → Snapshot → SnapshotHeader → ℕ → Bytes
header_only c s header start_line =
    if s.line_count == 1 && s.byte_len == 0 && start_line == 1
    then render_header c header ++ 0x0a ∷ render_read_line (record { line = 1; byte = 0 }) []
    else render_header c header

unfoldable pub render_snapshot_page : Crates → Snapshot → Bytes → ℕ → ℕ → Result SnapshotError Bytes
unfolding render_lines size_buffer render_rest header_only render_line
render_snapshot_page c s path requested limit = do
  header ← map_err contract (new_header path s.id s.line_count s.byte_len)
  table ← line_offsets c s
  let start_line = max requested 1
  if ltb s.line_count start_line then ok (header_only c s header start_line) else do
    let last = last_line s.line_count start_line (max limit 1)
    sized ← size_buffer c s start_line last
    out ← render_lines c s start_line (last - start_line + 1) (render_header c header)
    render_rest c s last out
