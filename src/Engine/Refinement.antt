-- ===== src/Engine/Refinement.antt =====
-- The engine answers every request as the reference model does, errors included.
use mathlib.Core.Path.{fun_ext}
use hashline_rs.Prelude.{
  ℕ, ◌+◌, ◌≤◌, ◌≡◌, refl, ap, Bool, List, [], ◌∷◌, Option, none, some, ◌⊎◌, inl, inr, Result, ok,
  err, to_option, map_err, Bytes, length, arith, All, Option-cases,
}
use hashline_rs.Crates.{Crates, CratesLaws}
use hashline_rs.Protocol.Codec.Position.{Position}
use hashline_rs.Protocol.Errors.{ContractError, SnapshotHeader, from, new_header}
use hashline_rs.Protocol.Lines
use hashline_rs.Protocol.Lines.{reference_line_starts}
use hashline_rs.Protocol.Edits.{
  EditOperation, ValidatedEdit, edits_overlap, first_overlap, validate_operation,
  validate_operations, apply_validated, apply_reference_edits, validate_edit_count,
}
use hashline_rs.Protocol.Context.{reference_header}
use hashline_rs.Protocol.Requests.{EditRequest, validate_edit}
use hashline_rs.Protocol.Versioned.{apply_versioned_reference_edits}
use hashline_rs.Snapshot.{Snapshot}
use hashline_rs.Snapshot.Agreement.{
  WellFormed, HasRoom, IsRefused, room_cases, line_start_lem, line_start-refused, lines_small,
  text_small,
}
use hashline_rs.Engine.{
  FastEdit, overlaps, resolve_boundary, validate_fast, validate_all, splice_fast, try_fast,
  apply_edits_fast,
}

-- A `Position` of the program has a line from one up.
abbrev pub HasLines : EditOperation → Type 0
HasLines operation = (1 ≤ operation.start.line) × (1 ≤ operation.end.line)

overlaps-edits_overlap : (l r : FastEdit) → overlaps l r ≡ edits_overlap l r
unfolding overlaps edits_overlap
overlaps-edits_overlap l r = ground arith

first_overlap-agrees :
    (edits : List FastEdit) → first_overlap overlaps edits ≡ first_overlap edits_overlap edits
first_overlap-agrees edits =
    ap (λ (o : FastEdit → FastEdit → Bool). first_overlap o edits)
      (fun_ext λ l. fun_ext λ r. overlaps-edits_overlap l r)

splice_fast-apply_validated :
    (source : Bytes) (edits : List FastEdit)
    → splice_fast source edits ≡ to_option (apply_validated source edits)
unfolding splice_fast apply_validated
splice_fast-apply_validated source edits = ground (arith, first_overlap-agrees edits)

validate_edit-count :
    (request : EditRequest)
    → validate_edit request ≡ ok tt
    → validate_edit_count (length request.edits) ≡ ok tt
unfolding validate_edit
validate_edit-count request h = ground arith

module _ (c : Crates) (laws : CratesLaws c) (s : Snapshot) (wf : WellFormed c s) where
  abbrev with_byte : Position → Result ContractError ℕ → Option (ℕ × ℕ)
  with_byte p (ok ordinal) = some (ordinal, p.byte)
  with_byte p (err e) = none

  -- with the memory for the line table
  resolve_boundary_lem :
      (p : Position)
      → 1 ≤ p.line
      → HasRoom c s.text
      → resolve_boundary c s p
        ≡ with_byte p (Lines.boundary_ordinal s.text (reference_line_starts s.text) p)
  unfolding resolve_boundary Lines.boundary_ordinal
  resolve_boundary_lem p h room = ground (
    arith,
    line_start_lem c laws s wf p.line h room,
    wf.line_count_eq,
    wf.byte_len_eq,
    lines_small c laws s wf,
  )

  -- and without it, only the end of the text is resolved
  resolve_boundary-refused :
      (p : Position)
      → 1 ≤ p.line
      → IsRefused c s.text
      → (resolve_boundary c s p ≡ none)
        ⊎ (resolve_boundary c s p
            ≡ with_byte p (Lines.boundary_ordinal s.text (reference_line_starts s.text) p))
  unfolding resolve_boundary Lines.boundary_ordinal
  resolve_boundary-refused p h refused = ground (
    arith,
    line_start-refused c laws s wf p.line h refused,
    wf.line_count_eq,
    wf.byte_len_eq,
    lines_small c laws s wf,
  )

  resolve_boundary-reference :
      (p : Position)
      → 1 ≤ p.line
      → (resolve_boundary c s p ≡ none)
        ⊎ (resolve_boundary c s p
            ≡ with_byte p (Lines.boundary_ordinal s.text (reference_line_starts s.text) p))
  resolve_boundary-reference p h = elim (room_cases c s.text) [
    | inl room ↦ inr (resolve_boundary_lem p h room)
    | inr refused ↦ resolve_boundary-refused p h refused
  ]

  validate_fast-reference :
      (index : ℕ) (operation : EditOperation)
      → HasLines operation
      → (validate_fast c s index operation ≡ none)
        ⊎ (validate_fast c s index operation
            ≡ to_option (validate_operation s.text (reference_line_starts s.text) index operation))
  unfolding validate_fast validate_operation
  validate_fast-reference index operation (hs, he) = ground (
    arith,
    laws.memchr_law 0 operation.content,
    resolve_boundary-reference operation.start hs,
    resolve_boundary-reference operation.end he,
  )

  validate_all-reference :
      (index : ℕ) (operations : List EditOperation)
      → All HasLines operations
      → (validate_all c s index operations ≡ none)
        ⊎ (validate_all c s index operations
            ≡ to_option
                (validate_operations s.text (reference_line_starts s.text) index operations))
  unfolding validate_all validate_operations
  validate_all-reference index [] h = inr refl
  validate_all-reference index (operation ∷ rest) (h, hs) =
      ground (
        arith,
        validate_fast-reference index operation h,
        validate_all-reference (index + 1) rest hs,
      )

  header_of : Bytes → SnapshotHeader
  header_of path = record {
    path = path;
    snapshot = s.id;
    lines = length (reference_line_starts s.text);
    bytes = length s.text;
  }

  header_fits : (path : Bytes) → reference_header path s.id s.text ≡ ok (header_of path)
  unfolding reference_header new_header reference_line_starts header_of
  header_fits path = ground (arith, wf.valid, text_small c laws s wf)

  -- with the checks passed, what is left of the reference model is its splice
  checked_reference :
      (request : EditRequest) (edits : List ValidatedEdit)
      → validate_edit request ≡ ok tt
      → request.snapshot ≡ s.id
      → validate_operations s.text (reference_line_starts s.text) 0 request.edits ≡ ok edits
      → apply_versioned_reference_edits s.text s.id request
        ≡ map_err from (apply_validated s.text edits)
  unfolding apply_versioned_reference_edits apply_reference_edits
  checked_reference request edits valid same ops =
      ground (arith, wf.valid, header_fits request.file_path, validate_edit-count request valid)

  try_fast-reference :
      (request : EditRequest)
      → All HasLines request.edits
      → (applied : Bytes) → try_fast c s request ≡ some applied
      → apply_versioned_reference_edits s.text s.id request ≡ ok applied
  unfolding try_fast
  try_fast-reference request h applied e = elim (Option-cases (validate_all c s 0 request.edits)) [
    | inl n ↦ ground (arith)
    | inr (edits, f) ↦ ground (
      arith,
      validate_all-reference 0 request.edits h,
      splice_fast-apply_validated s.text edits,
      checked_reference request edits,
    )
  ]

  -- The engine and the reference model answer alike: the same bytes, or the same error.
  pub apply_edits_fast-reference :
      (request : EditRequest)
      → All HasLines request.edits
      → apply_edits_fast c s request ≡ apply_versioned_reference_edits s.text s.id request
  unfolding apply_edits_fast
  apply_edits_fast-reference request h = elim (Option-cases (try_fast c s request)) [
    | inl fallback ↦ ground arith
    | inr (applied, e) ↦ ground (arith, try_fast-reference request h applied e)
  ]
