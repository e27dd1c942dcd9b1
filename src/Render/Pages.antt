-- ===== src/Render/Pages.antt =====
-- What a read page of src/render.rs shows: the lines of the reference model, each at its position, and
-- the cursor of the first line behind them.
use hashline_rs.Prelude.{
  ℕ, zero, suc, ◌+◌, ◌-◌, ◌≤◌, ◌<◌, ◌==◌, false, ◌≡◌, refl, sym, ap, min, max, ltb, if◌then◌else◌,
  List, [], ◌∷◌, ◌++◌, append_assoc, append-nil, ok, err, inl, inr, Bytes, length, get_or, slice,
  arith,
}
use hashline_rs.Crates.{Crates, CratesLaws}
use hashline_rs.Protocol.Codec.Position
use hashline_rs.Protocol.Codec.Position.{Position}
use hashline_rs.Protocol.Errors.{ContextLine, SnapshotHeader, new_header, validate_file_size}
use hashline_rs.Protocol.Lines.{reference_line_starts}
use hashline_rs.Protocol.Lines.Starts.{byte_at, get_or_past}
use hashline_rs.Protocol.Context.{context_line, context_lines, content_end}
use hashline_rs.Protocol.Context.Window.{get_elem?-get_or}
use hashline_rs.Protocol.Requests.{PageCursor}
use hashline_rs.Protocol.Versioned.{validate_reference_cursor}
use hashline_rs.Protocol.Context.{reference_header}
use hashline_rs.Protocol.Lines.{validate_reference_position, boundary_ordinal}
use hashline_rs.Snapshot.{Snapshot}
use hashline_rs.Snapshot.Agreement.{
  WellFormed, HasRoom, room, room_cases, no_room, line_offsets-refused, line_offsets_lem,
  line_start_lem, lines_small, text_small,
}
use hashline_rs.Render.{
  render_header, render_footer, display_line_content, required_start, render_line, render_lines,
  size_buffer, render_rest, last_line, render_snapshot_page,
}

-- a numbered line, on a line of its own
abbrev pub line_text : ContextLine → Bytes
line_text l = 0x0a ∷ Position.display l.position ++ b'|' ∷ l.content

abbrev pub shown : List ContextLine → Bytes
shown [] = []
shown (l ∷ ls) = line_text l ++ shown ls

display_line_content-content_end :
    (text : Bytes) (start end : ℕ)
    → display_line_content text start end ≡ slice start (content_end text start end) text
unfolding display_line_content content_end
display_line_content-content_end text start end = ground arith

pub inside_default : (l : List ℕ) (i d e : ℕ) → i < length l → get_or l i d ≡ get_or l i e
inside_default l i d e h = ground (arith, get_elem?-get_or l i d h, get_elem?-get_or l i e h)

module _ (s : Snapshot) where
  abbrev starts : List ℕ
  starts = reference_line_starts s.text

  -- where the next page begins
  abbrev pub next_cursor : ℕ → PageCursor
  next_cursor last = record {
    snapshot = s.id;
    next = record { line = last + 1; byte = byte_at s.text last };
  }

  abbrev pub rest_of : ℕ → Bytes
  rest_of last = if ltb last (length starts) then 0x0a ∷ render_footer (next_cursor last) else []

  -- the header of the whole text
  abbrev pub header_of : Bytes → SnapshotHeader
  header_of path = record {
    path = path;
    snapshot = s.id;
    lines = length starts;
    bytes = length s.text;
  }

  -- how many lines a page has
  abbrev pub count_of : ℕ → ℕ → ℕ
  count_of start limit = min limit (length starts + 1 - start)

-- a page's header, its lines, and the cursor behind them
abbrev pub page_text : Crates → Snapshot → Bytes → ℕ → ℕ → Bytes
page_text c s path start limit =
    render_header c (header_of s path)
    ++ (shown (context_lines s.text (starts s) start (count_of s start limit))
        ++ rest_of s (start + count_of s start limit - 1))

module _ (c : Crates) (laws : CratesLaws c) (s : Snapshot) (wf : WellFormed c s) where
  pub new_header_lem :
      (path : Bytes)
      → new_header path s.id s.line_count s.byte_len
        ≡ ok (record {
          path = path;
          snapshot = s.id;
          lines = length (starts s);
          bytes = length s.text;
        })
  unfolding new_header validate_file_size reference_line_starts
  new_header_lem path =
      rw (wf.line_count_eq, wf.byte_len_eq) (ground (arith, text_small c laws s wf))

module _ (c : Crates) (laws : CratesLaws c) (s : Snapshot) (wf : WellFormed c s)
    (there : HasRoom c s.text) where
  required_start_lem :
      (line : ℕ)
      → 1 ≤ line
      → line ≤ length (starts s)
      → required_start c s line ≡ ok (byte_at s.text (line - 1))
  unfolding required_start
  required_start_lem line h k =
      rw
        (
          line_start_lem c laws s wf line h there,
          get_elem?-get_or (starts s) (line - 1) (length s.text) (omega arith),
        )
        refl

  line_end_lem :
      (line : ℕ)
      → 1 ≤ line
      → line ≤ length (starts s)
      → (if ltb line s.line_count then required_start c s (line + 1) else ok s.byte_len)
        ≡ ok (byte_at s.text line)
  line_end_lem line h k = ground (
    arith,
    wf.line_count_eq,
    wf.byte_len_eq,
    required_start_lem (line + 1),
    get_or_past (starts s) line (length s.text),
  )

  render_line_lem :
      (line : ℕ)
      → 1 ≤ line
      → line ≤ length (starts s)
      → render_line c s line ≡ ok (line_text (context_line s.text (starts s) line))
  unfolding render_line context_line
  render_line_lem line h k =
      let nonzero : (line == 0) ≡ false = ground arith in
      rw
        (
          required_start_lem line h k,
          line_end_lem line h k,
          nonzero,
          display_line_content-content_end s.text (byte_at s.text (line - 1)) (byte_at s.text line),
        )
        (rw (inside_default (starts s) (line - 1) 0 (length s.text) (omega arith)) refl)

  render_lines_lem :
      (line count : ℕ) (out : Bytes)
      → 1 ≤ line
      → line + count ≤ length (starts s) + 1
      → render_lines c s line count out
        ≡ ok (out ++ shown (context_lines s.text (starts s) line count))
  unfolding render_lines context_lines
  render_lines_lem line zero out h k = ap ok (sym (append-nil out))
  render_lines_lem line (suc count) out h k =
      rw
        (
          render_line_lem line h (omega arith),
          render_lines_lem (line + 1) count (out ++ line_text (context_line s.text (starts s) line))
              (omega arith) (omega arith),
        )
        (ap ok (append_assoc out _ _))

  size_buffer_lem : (first last : ℕ) → 1 ≤ first → 1 ≤ last → size_buffer c s first last ≡ ok tt
  unfolding size_buffer
  size_buffer_lem first last h k =
      rw (line_start_lem c laws s wf first h there, line_start_lem c laws s wf last k there)
        (ground (arith, λ (k : 1 ≤ last + 1). line_start_lem c laws s wf (last + 1) k there))

  render_rest_lem : (last : ℕ) (out : Bytes) → render_rest c s last out ≡ ok (out ++ rest_of s last)
  unfolding render_rest
  render_rest_lem last out =
      ground (arith, wf.line_count_eq, required_start_lem (last + 1), append-nil out)

  -- with the memory
  render_snapshot_page_lem :
      (path : Bytes) (start limit : ℕ)
      → 1 ≤ start
      → start ≤ length (starts s)
      → 1 ≤ limit
      → limit < 65536
      → render_snapshot_page c s path start limit ≡ ok (page_text c s path start limit)
  unfolding render_snapshot_page
  render_snapshot_page_lem path start limit h k l m =
      rw
        (
          new_header_lem c laws s wf path,
          line_offsets_lem c laws s wf there,
          first,
          some_limit,
          inside,
          last_line_lem,
          size_buffer_lem start last h (omega arith),
          counted,
          render_lines_lem start count (render_header c (header_of s path)) h (omega arith),
          render_rest_lem last _,
        )
        (ap ok (append_assoc (render_header c (header_of s path)) _ _))
    where
      count : ℕ
      count = count_of s start limit

      last : ℕ
      last = start + count - 1

      first : max start 1 ≡ start
      first = omega arith

      some_limit : max limit 1 ≡ limit
      some_limit = omega arith

      inside : ltb s.line_count start ≡ false
      inside = ground (arith, wf.line_count_eq)

      last_line_lem : last_line s.line_count start limit ≡ last
      last_line_lem = ground (arith, wf.line_count_eq, lines_small c laws s wf)

      counted : last - start + 1 ≡ count
      counted = omega arith

module _ (c : Crates) (laws : CratesLaws c) (s : Snapshot) (wf : WellFormed c s) where
  -- A page of a well-formed snapshot that starts at one of its lines is the header of the text, then
  -- as many lines as the limit allows and the text has, each at its position and without its line
  -- ending, then, exactly where lines remain, the cursor of the first of them; if there is no memory
  -- for the line table, the page is refused for want of it.
  pub render_snapshot_page-shown :
      (path : Bytes) (start limit : ℕ)
      → 1 ≤ start
      → start ≤ length (starts s)
      → 1 ≤ limit
      → limit < 65536
      → render_snapshot_page c s path start limit
        ≡ (if room c s.text then ok (page_text c s path start limit) else err (no_room s.text))
  unfolding render_snapshot_page
  render_snapshot_page-shown path start limit h k l m = elim (room_cases c s.text) [
    | inl there ↦ rw there (render_snapshot_page_lem c laws s wf there path start limit h k l m)
    | inr refused ↦
        rw (new_header_lem c laws s wf path, line_offsets-refused c laws s wf refused, refused) refl
  ]

  -- The cursor behind a page is accepted on the text of a well-formed snapshot under its identity, and
  -- resolves to its own position, where a line starts there.
  pub next_cursor-accepted :
      (path : Bytes) (last : ℕ)
      → last < length (starts s)
      → validate_reference_cursor path s.text s.id (next_cursor s last)
        ≡ ok (next_cursor s last).next
  unfolding validate_reference_cursor validate_reference_position boundary_ordinal reference_header
      new_header validate_file_size
  next_cursor-accepted path last h =
      ground (
        arith,
        wf.valid,
        text_small c laws s wf,
        get_elem?-get_or (starts s) last (length s.text) h,
      )
