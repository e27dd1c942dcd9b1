-- ===== src/Search/Grep.antt =====
-- What src/grep.rs makes of the matching lines of one file, and how it assembles the answer, with the
-- wire forms of src/protocol.rs.
pub mod Spans
pub mod Sections
pub mod Content
pub mod Report
pub mod Files
pub mod Order
pub mod Request
use hashline_rs.Prelude.{
  ℕ, zero, suc, ◌+◌, ◌-◌, ◌≡◌, refl, Bool, true, false, not, ◌&&◌, ◌||◌, List, [], ◌∷◌, ◌++◌, map,
  Option, none, some, if◌then◌else◌, ltb, leb, ◌==◌, min, max, Result, ok, err, ◌>>=◌, Bytes, codes,
  length, get_or, slice, saturating_add, to_option,
}
use hashline_rs.Crates.{Crates}
use hashline_rs.Paths.{FilePath}
use hashline_rs.Protocol.Codec.Decimal.{decimal}
use hashline_rs.Protocol.Codec.Position
use hashline_rs.Protocol.Codec.Position.{Position}
use hashline_rs.Protocol.Errors.{new_header}
use hashline_rs.Protocol.Lines.{newline}
use hashline_rs.Protocol.Requests.{GrepOutputMode, content, files_with_matches, count}
use hashline_rs.Render.{render_header}
use hashline_rs.Search.Glob.{bool_text}
use hashline_rs.Search.Lossy.{to_string_lossy}
use hashline_rs.Snapshot.{
  Snapshot, SnapshotError, line_start, line_offsets, materialize_offsets, from_validated_bytes,
}

pub record FileHit : Type 0 where
  pub rel : FilePath
  pub header : Bytes
  pub body : Bytes
  pub matches : ℕ

-- A range of lines, counted from zero, the end exclusive.
pub record Span : Type 0 where
  pub start : ℕ
  pub end : ℕ

-- the match on `spans.last_mut()`
unfoldable pub add_window : List Span → Span → List Span
add_window [] w = w ∷ []
add_window (s ∷ []) w =
    if leb w.start s.end then (record s { end = max s.end w.end }) ∷ [] else s ∷ w ∷ []
add_window (s ∷ t ∷ spans) w = s ∷ add_window (t ∷ spans) w

-- the lines around a match
abbrev pub window_of : ℕ → ℕ → ℕ → Span
window_of before after line_no =
    let idx = line_no - 1 in
    record { start = idx - before; end = saturating_add (saturating_add idx after) 1 }

-- the loop over the match lines
unfoldable pub merge_windows : List ℕ → ℕ → ℕ → List Span → List Span
unfolding add_window
merge_windows [] before after spans = spans
merge_windows (line_no ∷ match_lines) before after spans =
    merge_windows match_lines before after (add_window spans (window_of before after line_no))

unfoldable pub included_spans : List ℕ → ℕ → ℕ → List Span
unfolding merge_windows
included_spans match_lines before after = merge_windows match_lines before after []

pub data GrepLineKind : Type 0 where
  match_kind context_kind : GrepLineKind

pub record GrepLine : Type 0 where
  pub position : Position
  pub kind : GrepLineKind
  pub text : Bytes

abbrev separator : GrepLineKind → ℕ
separator match_kind = b':'
separator context_kind = b'-'

-- `GrepLine::render`
unfoldable pub render_grep_line : GrepLine → Bytes
render_grep_line l = Position.display l.position ++ separator l.kind ∷ l.text

-- An `Option` under `?`, as a result whose error tells nothing.
abbrev pub Maybe : Type 0 → Type 0
Maybe A = Result (Unit {0}) A

-- `.ok()`
abbrev pub maybe : {E A : Type 0} → Result E A → Maybe A
maybe (ok a) = ok a
maybe (err e) = err tt

-- `.ok().flatten()`
abbrev pub flat : {E A : Type 0} → Result E (Option A) → Maybe A
flat (ok none) = err tt
flat (ok (some a)) = ok a
flat (err e) = err tt

-- `while matched.get(cursor).is_some_and(|&m| m < line_no) { cursor += 1 }`, where the cursor stands for
-- the matches from it on
unfoldable pub skip_below : ℕ → List ℕ → List ℕ
skip_below line_no [] = []
skip_below line_no (m ∷ rest) =
    let skipped = skip_below line_no rest in if ltb m line_no then skipped else m ∷ rest

-- `matched.get(cursor) == Some(&line_no)`
abbrev pub kind_of : ℕ → List ℕ → GrepLineKind
kind_of line_no [] = context_kind
kind_of line_no (m ∷ rest) = if m == line_no then match_kind else context_kind

-- `content_end > start && raw[content_end - 1] == byte`
abbrev raw_ends : Bytes → ℕ → ℕ → ℕ → Bool
raw_ends raw start content_end byte =
    ltb start content_end && get_or raw (content_end - 1) 0 == byte

-- the content of a line without its ending
unfoldable pub hit_content : Bytes → ℕ → ℕ → Bytes
hit_content raw start end =
    if raw_ends raw start end newline
    then if raw_ends raw start (end - 1) 0x0d
      then slice start (end - 1 - 1) raw
      else slice start (end - 1) raw
    else slice start end raw

-- the body of the loop over the lines of a span: the text that is pushed, and the cursor
unfoldable pub render_hit_line : Crates → Snapshot → ℕ → List ℕ → Maybe (Bytes × List ℕ)
unfolding skip_below hit_content render_grep_line
render_hit_line c s line_no matched = do
  start_byte ← flat (line_start c s line_no)
  end_byte ←
      (if ltb line_no s.line_count then flat (line_start c s (line_no + 1)) else ok s.byte_len)
  position ← maybe (Position.new line_no start_byte)
  let cursor = skip_below line_no matched
  ok (
    render_grep_line (record {
      position = position;
      kind = kind_of line_no cursor;
      text = hit_content s.text start_byte end_byte;
    })
        ++ b'\n' ∷ [],
    cursor,
  )

-- the loop over `remaining` lines from an index on
unfoldable pub render_span : Crates → Snapshot → ℕ → ℕ → List ℕ → Bytes → Maybe (Bytes × List ℕ)
unfolding render_hit_line
render_span c s idx zero cursor body = ok (body, cursor)
render_span c s idx (suc remaining) cursor body = do
  (line, moved) ← render_hit_line c s (idx + 1) cursor
  render_span c s (idx + 1) remaining moved (body ++ line)

-- `--` stands before every span but the first
abbrev pub gap : Bool → Bytes
gap true = []
gap false = codes "--\n"

-- the loop over the spans
unfoldable pub render_spans : Crates → Snapshot → Bool → List Span → List ℕ → Bytes → Maybe Bytes
unfolding render_span
render_spans c s first [] cursor body = ok body
render_spans c s first (span ∷ spans) cursor body = do
  (rendered, moved) ← render_span c s span.start (span.end - span.start) cursor (body ++ gap first)
  render_spans c s false spans moved rendered

-- `text().is_empty() || text().ends_with('\n')`
abbrev pub ends_in_newline : Bytes → Bool
ends_in_newline text = length text == 0 || get_or text (length text - 1) 0 == newline

-- the lines that the searcher counts
abbrev pub searchable_of : Snapshot → ℕ
searchable_of s = if ends_in_newline s.text then s.line_count - 1 else s.line_count

-- `span.end = span.end.min(searchable)`
abbrev pub trim : ℕ → List Span → List Span
trim searchable [] = []
trim searchable (span ∷ spans) =
    (record span { end = min span.end searchable }) ∷ trim searchable spans

-- behind the snapshot
unfoldable pub render_content : Crates → Snapshot → FilePath → List ℕ → ℕ → ℕ → Maybe FileHit
unfolding included_spans render_spans
render_content c s rel matched before after = do
  let (answer, filled) = materialize_offsets c s
  table ← maybe answer
  let spans = trim (searchable_of s) (included_spans matched before after)
  header ← maybe (new_header (to_string_lossy rel) s.id s.line_count s.byte_len)
  body ← render_spans c filled true spans matched []
  ok (record { rel = rel; header = render_header c header; body = body; matches = length matched })

-- a hit of a mode that shows no lines
abbrev pub counted_hit : FilePath → List ℕ → FileHit
counted_hit rel matched = record { rel = rel; header = []; body = []; matches = length matched }

unfoldable pub render_hit :
    Crates → Bytes → FilePath → List ℕ → ℕ → ℕ → GrepOutputMode → Option FileHit
unfolding render_content
render_hit c bytes rel matched before after content =
    to_option
      (maybe (from_validated_bytes c bytes) >>= λ s. render_content c s rel matched before after)
render_hit c bytes rel matched before after mode = some (counted_hit rel matched)
