-- ===== src/Tools/Read/Answer.antt =====
-- What a read of a well-formed snapshot answers, told from its text.
use hashline_rs.Prelude.{
  ℕ, ◌≤◌, ◌<◌, ◌==◌, ◌≡◌, refl, true, false, ◌&&◌, ltb, leb, Option, none, some, inl, inr,
  if◌then◌else◌, Result, ok, err, Bytes, codes, length, arith, Bool-cases, Result-cases,
  Option-cases, ◌⊎◌,
}
use hashline_rs.Crates.{Crates, CratesLaws}
use hashline_rs.Paths.{FilePath}
use hashline_rs.Tools.Failures.{snapshot_protocol_error}
use hashline_rs.Protocol.Codec.Position.{Position}
use hashline_rs.Protocol.Context.{reference_header}
use hashline_rs.Protocol.Errors.{
  ProtocolError, from, invalid_position, new_header, validate_file_size,
}
use hashline_rs.Protocol.Lines
use hashline_rs.Protocol.Lines.{reference_line_starts, validate_reference_position}
use hashline_rs.Protocol.Requests.{PageCursor, ReadRequest, validate_read, is_some}
use hashline_rs.Protocol.Versioned.{validate_reference_cursor}
use hashline_rs.Render.{render_header}
use hashline_rs.Render.Pages.{page_text, header_of, new_header_lem, render_snapshot_page-shown}
use hashline_rs.Snapshot.{Snapshot, validate_boundary}
use hashline_rs.Snapshot.Agreement.{
  WellFormed, room, room_cases, no_room, boundary_ordinal-reference, text_small,
}
use hashline_rs.Tools.Read.{
  is_ok, line_of, or_one, validate_cursor_on_snapshot, cursor_position_or_first, start_line_of,
  page_from, answer,
}

-- The page from a line of the text on: its header, its lines, and the cursor behind them. Where the
-- text has no such line, a cursor is refused and a line number is answered with the header; where
-- there is no memory for the line table, the page is refused for want of it.
pub page_of : Crates → FilePath → Snapshot → ReadRequest → ℕ → Result ProtocolError Bytes
page_of c file s input start =
    let starts = reference_line_starts s.text in
    if leb start (length starts)
    then (if room c s.text
        then ok (page_text c s input.path start input.limit)
        else err (snapshot_protocol_error (codes "read") file (no_room s.text)))
    else elim input.cursor [
      | none ↦ ok (render_header c (header_of s input.path))
      | some cursor ↦ err (from (invalid_position cursor.next))
    ]

-- The answer by the rules of the reference model.
pub reference_answer : Crates → FilePath → Snapshot → ReadRequest → Result ProtocolError Bytes
reference_answer c file s input = elim input.cursor [
  | none ↦ page_of c file s input (or_one input.start_line)
  | some cursor ↦ elim (line_of (validate_reference_cursor input.path s.text s.id cursor)) [
    | err e ↦ err e
    | ok line ↦ page_of c file s input line
  ]
]

-- a position's line counts from one
abbrev pub HasPosition : Option PageCursor → Type 0
HasPosition none = Unit {0}
HasPosition (some cursor) = 1 ≤ cursor.next.line

limits :
    (input : ReadRequest)
    → validate_read input ≡ ok tt
    → (1 ≤ input.limit) × (input.limit < 65536) × (1 ≤ or_one input.start_line)
unfolding validate_read
limits input h = (ground arith, ground arith, ground arith)

module _ (c : Crates) (laws : CratesLaws c) (s : Snapshot) (wf : WellFormed c s) where
  -- the line table accepts only positions that the reference model accepts
  is_ok-validate_boundary :
      (p : Position)
      → 1 ≤ p.line
      → is_ok (validate_boundary c s p) ≡ true
      → is_ok (Lines.boundary_ordinal s.text (reference_line_starts s.text) p) ≡ true
  unfolding validate_boundary
  is_ok-validate_boundary p h = elim (room_cases c s.text) [
    | inl there ↦
        rw (boundary_ordinal-reference c laws s wf p h, there)
          (elim (Result-cases (Lines.boundary_ordinal s.text (reference_line_starts s.text) p)) [
            | inl (n, e) ↦ rw e (λ t. t)
            | inr (f, e) ↦ rw e (λ t. t)
          ])
    | inr refused ↦
        rw (boundary_ordinal-reference c laws s wf p h, refused) (λ t. ground (arith, t))
  ]

  accepted :
      (path : Bytes) (cursor : PageCursor)
      → (cursor.snapshot == s.id) ≡ true
      → is_ok (Lines.boundary_ordinal s.text (reference_line_starts s.text) cursor.next) ≡ true
      → validate_reference_cursor path s.text s.id cursor ≡ ok cursor.next
  unfolding validate_reference_cursor reference_header validate_reference_position new_header
      validate_file_size Lines.boundary_ordinal reference_line_starts
  accepted path cursor same h = ground (arith, wf.valid, text_small c laws s wf)

  validate_cursor-reference :
      (path : Bytes) (cursor : PageCursor)
      → 1 ≤ cursor.next.line
      → validate_cursor_on_snapshot c s path cursor
        ≡ line_of (validate_reference_cursor path s.text s.id cursor)
  unfolding validate_cursor_on_snapshot
  validate_cursor-reference path cursor h =
      elim (Bool-cases (cursor.snapshot == s.id && is_ok (validate_boundary c s cursor.next))) [
        | inr slow ↦ rw slow refl
        | inl fast ↦
            let same : (cursor.snapshot == s.id) ≡ true = ground arith in
            let inside : is_ok (validate_boundary c s cursor.next) ≡ true = ground arith in
            let placed = is_ok-validate_boundary cursor.next h inside in
            rw (fast, accepted path cursor same placed) refl
      ]

  cursor-next :
      (path : Bytes) (cursor : PageCursor) {p : Position}
      → validate_reference_cursor path s.text s.id cursor ≡ ok p
      → p ≡ cursor.next
  unfolding validate_reference_cursor
  cursor-next path cursor e = ground arith

  page_from-page_of :
      (file : FilePath) (input : ReadRequest) (start : ℕ)
      → 1 ≤ start
      → 1 ≤ input.limit
      → input.limit < 65536
      → page_from c file s input start ≡ page_of c file s input start
  unfolding page_from page_of cursor_position_or_first
  page_from-page_of file input start h k l = elim (Bool-cases (ltb s.line_count start)) [
    | inl beyond ↦
        let past : leb start (length (reference_line_starts s.text)) ≡ false =
          ground (arith, wf.line_count_eq) in
        rw (beyond, past, new_header_lem c laws s wf input.path) (ended input.cursor)
    | inr inside ↦
        let reached : start ≤ length (reference_line_starts s.text) =
          ground (arith, wf.line_count_eq) in
        let past : leb start (length (reference_line_starts s.text)) ≡ true = ground arith in
        rw
          (
            inside,
            past,
            render_snapshot_page-shown c laws s wf input.path start input.limit h reached k l,
          )
          (elim (room_cases c s.text) [ inl there ↦ rw there refl | inr refused ↦ rw refused refl ])
  ]
    where
      ended :
          (cursor : Option PageCursor)
          → (if is_some cursor
              then err (from (invalid_position (cursor_position_or_first cursor start)))
              else ok (render_header c (header_of s input.path)))
            ≡ elim cursor [
              | none ↦ ok (render_header c (header_of s input.path))
              | some k ↦ err (from (invalid_position k.next))
            ]
      ended none = refl
      ended (some k) = refl

  -- A valid read of a well-formed snapshot is answered by the rules of the reference model: from a
  -- cursor that these accept, or else from the named line or the first, the page is the header of the
  -- text, as many lines as the limit allows and the text has, and the cursor of the first line behind
  -- them, where there is one; behind the last line, a cursor is refused and a line number is answered
  -- with the header; and a cursor that the rules refuse gets their error. If there is no memory for
  -- the line table, a page with lines is refused for want of it.
  pub answer-reference :
      (file : FilePath) (input : ReadRequest)
      → validate_read input ≡ ok tt
      → HasPosition input.cursor
      → answer c file s input ≡ reference_answer c file s input
  unfolding answer reference_answer start_line_of
  answer-reference file input valid placed =
      let (k, l, m) = limits input valid in by_cursor k l m (Option-cases input.cursor)
    where
      by_cursor :
          1 ≤ input.limit
          → input.limit < 65536
          → 1 ≤ or_one input.start_line
          → (input.cursor ≡ none) ⊎ ((cursor : PageCursor) × (input.cursor ≡ some cursor))
          → answer c file s input ≡ reference_answer c file s input
      by_cursor k l m (inl e) =
          rw (answer, reference_answer, e)
            (page_from-page_of file input (or_one input.start_line) m k l)
      by_cursor k l m (inr (cursor, e)) =
          rw
            (
              answer,
              reference_answer,
              e,
              validate_cursor-reference input.path cursor (rw e at placed),
            )
            (elim (Result-cases (validate_reference_cursor input.path s.text s.id cursor)) [
              | inr (f, refused) ↦ rw refused refl
              | inl (p, found) ↦
                  let same = cursor-next input.path cursor found in
                  let lines : 1 ≤ p.line = rw same (rw e at placed) in
                  rw found (page_from-page_of file input p.line lines k l)
            ])
