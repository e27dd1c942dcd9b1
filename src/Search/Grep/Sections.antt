-- ===== src/Search/Grep/Sections.antt =====
-- The section that grep shows of a file: the lines of the spans, each at its position and marked by
-- whether it matches.
use hashline_rs.Prelude.{
  ℕ, zero, suc, ◌+◌, ◌-◌, ◌≤◌, ◌<◌, ◌≡◌, refl, sym, ap, ◌∙◌, Bool, false, ◌||◌, List, [], ◌∷◌, ◌++◌,
  append_assoc, append-nil, if◌then◌else◌, ltb, ◌==◌, ok, Bytes, length, slice, All, AllPairs,
  arith, Bool-cases, inl, inr,
}
use hashline_rs.Crates.{Crates, CratesLaws}
use hashline_rs.Protocol.Context.{context_line, content_end}
use hashline_rs.Protocol.Context.Window.{get_elem?-get_or}
use hashline_rs.Protocol.Errors.{ContextLine}
use hashline_rs.Protocol.Lines.{reference_line_starts}
use hashline_rs.Protocol.Lines.Starts.{byte_at, get_or_past}
use hashline_rs.Render.Pages.{inside_default}
use hashline_rs.Snapshot.{Snapshot, line_start}
use hashline_rs.Snapshot.Agreement.{WellFormed, HasRoom, line_start_lem}
use hashline_rs.Search.Grep.{
  Span, match_kind, context_kind, render_grep_line, Maybe, flat, skip_below, kind_of, hit_content,
  render_hit_line, render_span, render_spans, gap,
}

abbrev pub member : ℕ → List ℕ → Bool
member n [] = false
member n (m ∷ ms) = m == n || member n ms

-- A line of the text as grep shows it, on a line of its own.
abbrev pub section_line : List ℕ → ContextLine → Bytes
section_line matched l =
    render_grep_line (record {
      position = l.position;
      kind = if member l.position.line matched then match_kind else context_kind;
      text = l.content;
    })
    ++ b'\n' ∷ []

-- `count` lines behind an index
abbrev pub section_lines : Bytes → List ℕ → ℕ → ℕ → Bytes
section_lines text matched idx zero = []
section_lines text matched idx (suc count) =
    section_line matched (context_line text (reference_line_starts text) (idx + 1))
    ++ section_lines text matched (idx + 1) count

-- The lines of the spans, with `--` between two spans.
abbrev pub section_spans : Bytes → List ℕ → Bool → List Span → Bytes
section_spans text matched first [] = []
section_spans text matched first (span ∷ spans) =
    gap first
    ++ (section_lines text matched span.start (span.end - span.start)
        ++ section_spans text matched false spans)

hit_content-content_end :
    (text : Bytes) (start end : ℕ)
    → hit_content text start end ≡ slice start (content_end text start end) text
unfolding hit_content content_end
hit_content-content_end text start end = ground arith

none_above : (n : ℕ) (l : List ℕ) → All (λ k. n < k) l → member n l ≡ false
none_above n [] h = refl
none_above n (m ∷ l) (h, hs) = ground (arith, none_above n l hs)

higher : (n m : ℕ) (l : List ℕ) → n ≤ m → All (λ k. m < k) l → All (λ k. n < k) l
higher n m [] h a = tt
higher n m (k ∷ l) h (a, as') = (omega arith, higher n m l h as')

-- the cursor on a line tells whether it matches
kind_of-skip_below :
    (line : ℕ) (l : List ℕ)
    → AllPairs ◌<◌ l
    → kind_of line (skip_below line l) ≡ (if member line l then match_kind else context_kind)
unfolding skip_below
kind_of-skip_below line [] a = refl
kind_of-skip_below line (m ∷ l) (a, as') =
    let above = λ (h : line ≤ m). none_above line l (higher line m l h a) in
    ground (arith, kind_of-skip_below line l as', above)

skip_below-member : (line n : ℕ) (l : List ℕ) → line ≤ n → member n (skip_below line l) ≡ member n l
unfolding skip_below
skip_below-member line n [] h = refl
skip_below-member line n (m ∷ l) h = ground (arith, skip_below-member line n l h)

skip_below-ascending : (line : ℕ) (l : List ℕ) → AllPairs ◌<◌ l → AllPairs ◌<◌ (skip_below line l)
unfolding skip_below
skip_below-ascending line [] a = tt
skip_below-ascending line (m ∷ l) (a, as') = elim (Bool-cases (ltb m line)) [
  | inl below ↦ rw below (skip_below-ascending line l as')
  | inr reached ↦ rw reached (a, as')
]

-- The cursor still has the matches from a line on.
pub record Cursor (matched : List ℕ) (line : ℕ) (cursor : List ℕ) : Type 0 where
  pub ascending : AllPairs ◌<◌ cursor
  pub agrees : (n : ℕ) → line ≤ n → member n cursor ≡ member n matched

moved-Cursor :
    (matched : List ℕ) (line next : ℕ) (cursor : List ℕ)
    → line ≤ next
    → Cursor matched line cursor
    → Cursor matched next (skip_below line cursor)
moved-Cursor matched line next cursor h k = record {
  ascending = skip_below-ascending line cursor k.ascending;
  agrees = λ n le.
      skip_below-member line n cursor (omega (arith, le, h)) ∙ k.agrees n (omega (arith, le, h));
}

-- a range within a number of lines
abbrev pub Within : ℕ → Span → Type 0
Within lines span = (span.start ≤ span.end) × (span.end ≤ lines)

module _ (c : Crates) (laws : CratesLaws c) (s : Snapshot) (wf : WellFormed c s)
    (there : HasRoom c s.text) (matched : List ℕ) where
  abbrev starts : List ℕ
  starts = reference_line_starts s.text

  flat_start_lem :
      (line : ℕ)
      → 1 ≤ line
      → line ≤ length starts
      → flat (line_start c s line) ≡ ok (byte_at s.text (line - 1))
  flat_start_lem line h k =
      rw
        (
          line_start_lem c laws s wf line h there,
          get_elem?-get_or starts (line - 1) (length s.text) (omega arith),
        )
        refl

  flat_end_lem :
      (line : ℕ)
      → 1 ≤ line
      → line ≤ length starts
      → (if ltb line s.line_count then flat (line_start c s (line + 1)) else ok s.byte_len)
        ≡ ok (byte_at s.text line)
  flat_end_lem line h k = ground (
    arith,
    wf.line_count_eq,
    wf.byte_len_eq,
    flat_start_lem (line + 1),
    get_or_past starts line (length s.text),
  )

  render_hit_line_lem :
      (line : ℕ) (cursor : List ℕ)
      → 1 ≤ line
      → line ≤ length starts
      → Cursor matched line cursor
      → render_hit_line c s line cursor
        ≡ ok (section_line matched (context_line s.text starts line), skip_below line cursor)
  unfolding render_hit_line context_line
  render_hit_line_lem line cursor h k at =
      let nonzero : (line == 0) ≡ false = ground arith in
      rw
        (
          flat_start_lem line h k,
          flat_end_lem line h k,
          nonzero,
          kind_of-skip_below line cursor at.ascending,
          at.agrees line (omega arith),
          hit_content-content_end s.text (byte_at s.text (line - 1)) (byte_at s.text line),
        )
        (rw (inside_default starts (line - 1) 0 (length s.text) (omega arith)) refl)

  -- behind a span the cursor still has the matches of later lines
  record AfterSpan (idx count : ℕ) (body : Bytes) (r : Maybe (Bytes × List ℕ)) : Type 0 where
    cursor : List ℕ
    kept : Cursor matched (idx + count + 1) cursor
    result : r ≡ ok (body ++ section_lines s.text matched idx count, cursor)

  render_span_lem :
      (idx count : ℕ) (cursor : List ℕ) (body : Bytes)
      → idx + count ≤ length starts
      → Cursor matched (idx + 1) cursor
      → AfterSpan idx count body (render_span c s idx count cursor body)
  unfolding render_span
  render_span_lem idx zero cursor body h at = record {
    cursor = cursor;
    kept = moved_floor at;
    result = ap (λ b. ok (b, cursor)) (sym (append-nil body));
  }
    where
      moved_floor : Cursor matched (idx + 1) cursor → Cursor matched (idx + 0 + 1) cursor
      moved_floor k = record {
        ascending = k.ascending;
        agrees = λ n le. k.agrees n (omega (arith, le));
      }
  render_span_lem idx (suc count) cursor body h at =
      let line = section_line matched (context_line s.text starts (idx + 1)) in
      let rest =
        render_span_lem (idx + 1) count (skip_below (idx + 1) cursor) (body ++ line) (omega arith)
          (moved-Cursor matched (idx + 1) (idx + 1 + 1) cursor (omega arith) at) in
      record {
        cursor = rest.cursor;
        kept = record {
          ascending = rest.kept.ascending;
          agrees = λ n le. rest.kept.agrees n (omega (arith, le));
        };
        result =
            rw (render_hit_line_lem (idx + 1) cursor (omega arith) (omega arith) at)
              (rest.result ∙ ap (λ b. ok (b, rest.cursor)) (append_assoc body line _));
      }

  -- spans that come later than the lines read
  pub render_spans_lem :
      (first : Bool) (spans : List Span) (cursor : List ℕ) (body : Bytes) (floor : ℕ)
      → All (Within (length starts)) spans
      → AllPairs (λ a b. a.end ≤ b.start) spans
      → All (λ a. floor ≤ a.start + 1) spans
      → Cursor matched floor cursor
      → render_spans c s first spans cursor body
        ≡ ok (body ++ section_spans s.text matched first spans)
  unfolding render_spans
  render_spans_lem first [] cursor body floor w g f at = ap ok (sym (append-nil body))
  render_spans_lem first (span ∷ spans) cursor body floor ((le, top), ws) (g, gs) (f, fs) at =
      let count = span.end - span.start in
      let here : Cursor matched (span.start + 1) cursor = record {
        ascending = at.ascending;
        agrees = λ n h. at.agrees n (omega (arith, h, f));
      } in
      let after =
        render_span_lem span.start count cursor (body ++ gap first) (omega (arith, le, top)) here in
      rw after.result (
        render_spans_lem false spans after.cursor _ (span.start + count + 1) ws gs
          (later span.end spans g (omega (arith, le))) after.kept
        ∙ ap ok (append_assoc (body ++ gap first) _ _ ∙ append_assoc body (gap first) _))
    where
      later :
          (end : ℕ) (spans : List Span)
          → All (λ b. end ≤ b.start) spans
          → span.start + (span.end - span.start) ≤ end
          → All (λ b. span.start + (span.end - span.start) + 1 ≤ b.start + 1) spans
      later end [] g h = tt
      later end (b ∷ spans) (g, gs) h = (omega arith, later end spans gs h)
