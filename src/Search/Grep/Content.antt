-- ===== src/Search/Grep/Content.antt =====
-- `render_hit` of src/grep.rs in the mode that shows lines, for the matches of a text.
use hashline_rs.Prelude.{
  ℕ, ◌+◌, ◌-◌, ◌≤◌, ◌<◌, ◌≡◌, refl, true, List, [], ◌∷◌, Option, some, if◌then◌else◌, Bytes, length,
  min, All, AllPairs, arith, inl, inr, none,
}
use hashline_rs.Crates.{Crates, CratesLaws}
use hashline_rs.Paths.{FilePath}
use hashline_rs.Protocol.Lines.{reference_line_starts}
use hashline_rs.Protocol.Requests.{content}
use hashline_rs.Protocol.Text.Policy.{IsText, IsText→validate_text}
use hashline_rs.Render.{render_header}
use hashline_rs.Render.Pages.{new_header_lem}
use hashline_rs.Snapshot.{Snapshot, content_id, materialize_offsets}
use hashline_rs.Snapshot.Offsets.{build}
use hashline_rs.Snapshot.Agreement.{
  WellFormed, HasRoom, IsRefused, room, room_cases, line_offsets-refused, built, built-WellFormed,
  from_validated_bytes_lem, line_offsets_lem,
}
use hashline_rs.Search.Grep.{
  FileHit, Span, ends_in_newline, trim, included_spans, render_content, render_hit,
}
use hashline_rs.Search.Grep.Spans.{
  Gapped, Nonempty, Usual, Upto, IsMerged, included_spans-IsMerged, included_spans-start,
}
use hashline_rs.Search.Grep.Sections.{section_spans, Within, render_spans_lem}
use hashline_rs.Search.Lossy.{to_string_lossy}

-- The number of lines in which matches are sought: an empty line behind the last newline is none.
abbrev pub searched : Bytes → ℕ
searched text =
    if ends_in_newline text
    then length (reference_line_starts text) - 1
    else length (reference_line_starts text)

-- The matches of a text: numbers of its lines, ascending.
pub record IsMatched (after : ℕ) (text : Bytes) (matched : List ℕ) : Type 0 where
  pub usual : All (Usual after) matched
  pub ascending : AllPairs ◌<◌ matched
  pub inside : All (λ m. m ≤ searched text) matched

trim-Within :
    (lines n : ℕ) (spans : List Span)
    → n ≤ lines
    → All (Upto n) spans
    → All Nonempty spans
    → All (Within lines) (trim n spans)
trim-Within lines n [] h u k = tt
trim-Within lines n (span ∷ spans) h (u, us) (k, ks) =
    ((omega arith, omega arith), trim-Within lines n spans h us ks)

trim-apart :
    (n : ℕ) (spans : List Span)
    → AllPairs Gapped spans
    → AllPairs (λ a b. a.end ≤ b.start) (trim n spans)
trim-apart n [] g = tt
trim-apart n (span ∷ spans) (g, gs) = (behind spans g, trim-apart n spans gs)
  where
    behind :
        (rest : List Span)
        → All (Gapped span) rest
        → All (λ b. min span.end n ≤ b.start) (trim n rest)
    behind [] g = tt
    behind (b ∷ rest) (g, gs) = (omega arith, behind rest gs)

from_zero : (spans : List Span) → All (λ a. 0 ≤ a.start + 1) spans
from_zero [] = tt
from_zero (span ∷ spans) = (omega arith, from_zero spans)

searched-le : (text : Bytes) → searched text ≤ length (reference_line_starts text)
searched-le text = ground arith

loosened : (n : ℕ) (l : List ℕ) → All (λ m. m ≤ n) l → All (λ m. m ≤ n + 1) l
loosened n [] h = tt
loosened n (m ∷ l) (h, hs) = (omega arith, loosened n l hs)

-- the section of the spans
abbrev pub section_hit : Crates → FilePath → Bytes → List ℕ → List Span → FileHit
section_hit c rel text matched spans = record {
  rel = rel;
  header = render_header c (record {
    path = to_string_lossy rel;
    snapshot = content_id c text;
    lines = length (reference_line_starts text);
    bytes = length text;
  });
  body = section_spans text matched true (trim (searched text) spans);
  matches = length matched;
}

-- A section of the text: spans that cover the context of the matches, and no other line of the text,
-- shown with their lines as the reference model counts them, if there is memory for the line table.
pub record IsSection (c : Crates) (before after : ℕ) (rel : FilePath) (text : Bytes)
    (matched : List ℕ) (found : Option FileHit) : Type 0 where
  pub spans : List Span
  pub merged : IsMerged before after matched spans
  pub result : found ≡ (if room c text then some (section_hit c rel text matched spans) else none)

module _ (c : Crates) (laws : CratesLaws c) (text : Bytes) (is_text : IsText text) where
  abbrev whole : Snapshot
  whole = built c laws text none

  whole-WellFormed : WellFormed c whole
  whole-WellFormed = built-WellFormed c laws text none (IsText→validate_text text is_text)

  abbrev filled : Snapshot
  filled = record whole { offsets = some (build c text whole.line_count whole.byte_len) }

  filled-WellFormed : WellFormed c filled
  filled-WellFormed = record {
    valid = whole-WellFormed.valid;
    id_eq = refl;
    byte_len_eq = refl;
    line_count_eq = refl;
    cell = inr refl;
  }

  -- with the memory
  render_content_lem :
      (rel : FilePath) (matched : List ℕ) (before after : ℕ)
      → HasRoom c text
      → IsMatched after text matched
      → render_hit c text rel matched before after content
        ≡ some (section_hit c rel text matched (included_spans matched before after))
  unfolding render_hit render_content materialize_offsets
  render_content_lem rel matched before after there m =
      let merged = included_spans-IsMerged before after matched m.usual m.ascending in
      let n = searched text in
      let upto = included_spans-start before after n matched (loosened n matched m.inside) in
      let trimmed = trim n (included_spans matched before after) in
      let lines = length (reference_line_starts text) in
      rw
        (
          from_validated_bytes_lem c laws text is_text,
          line_offsets_lem c laws whole whole-WellFormed there,
          new_header_lem c laws whole whole-WellFormed (to_string_lossy rel),
        )
        (rw
          (render_spans_lem c laws filled filled-WellFormed there matched true trimmed matched [] 0
            (trim-Within lines n (included_spans matched before after) (searched-le text) upto
              merged.nonempty)
            (trim-apart n (included_spans matched before after) merged.gapped) (from_zero trimmed)
            (record { ascending = m.ascending; agrees = λ k h. refl }))
          refl)

  -- and without it
  render_content-refused :
      (rel : FilePath) (matched : List ℕ) (before after : ℕ)
      → IsRefused c text
      → render_hit c text rel matched before after content ≡ none
  unfolding render_hit render_content materialize_offsets
  render_content-refused rel matched before after refused =
      rw
        (
          from_validated_bytes_lem c laws text is_text,
          line_offsets-refused c laws whole whole-WellFormed refused,
        )
        refl

  -- For the ascending matches of a text, grep shows a section of the text: its header; then, for spans
  -- that ascend with at least a line between any two and cover exactly the lines in the context of a
  -- match, their lines as far as the text is searched, each at its position and without its ending,
  -- marked by whether it matches, with `--` between two spans; and the number of matches. If there is
  -- no memory for the line table, the text is left out.
  pub render_hit-IsSection :
      (rel : FilePath) (matched : List ℕ) (before after : ℕ)
      → IsMatched after text matched
      → IsSection c before after rel text matched
          (render_hit c text rel matched before after content)
  render_hit-IsSection rel matched before after m = record {
    spans = included_spans matched before after;
    merged = included_spans-IsMerged before after matched m.usual m.ascending;
    result = elim (room_cases c text) [
      | inl there ↦ rw there (render_content_lem rel matched before after there m)
      | inr refused ↦ rw refused (render_content-refused rel matched before after refused)
    ];
  }
