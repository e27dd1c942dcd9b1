-- ===== src/Engine.antt =====
-- `apply_edits_fast` of src/edit/engine.rs: the edit batch applied with the snapshot's line table,
-- and the reference model as the fallback. The engine's `FastEdit` has the fields of the reference
-- model's `ValidatedEdit`, and its loops over them are the same, so both share them here.
pub mod Refinement
use hashline_rs.Prelude.{
  ℕ, ◌+◌, ◌-◌, ◌≡◌, refl, Bool, true, false, not, ◌&&◌, List, [], ◌∷◌, Option, none, some, ltb, leb,
  ◌==◌, if◌then◌else◌, Result, ok, err, to_option, Bytes, length, u64_max, checked_add,
}
use hashline_rs.Crates.{Crates}
use hashline_rs.Protocol.Codec.Position.{Position}
use hashline_rs.Protocol.Errors.{ProtocolError, validate_file_size}
use hashline_rs.Protocol.Edits.{
  EditOperation, ValidatedEdit, is_insertion, first_overlap, final_length, sort_by_key, splice,
}
use hashline_rs.Protocol.Lines.{is_at}
use hashline_rs.Protocol.Requests.{EditRequest, validate_edit}
use hashline_rs.Protocol.Versioned.{apply_versioned_reference_edits}
use hashline_rs.Snapshot.{Snapshot, SnapshotError, line_start}

abbrev pub FastEdit : Type 0
FastEdit = ValidatedEdit

-- the match on `(left.is_insertion(), right.is_insertion())`
abbrev overlap_case : Bool → Bool → FastEdit → FastEdit → Bool
overlap_case false false l r =
    ltb l.start_ordinal r.end_ordinal && ltb r.start_ordinal l.end_ordinal
overlap_case true false l r =
    ltb r.start_ordinal l.start_ordinal && ltb l.start_ordinal r.end_ordinal
overlap_case false true l r =
    ltb l.start_ordinal r.start_ordinal && ltb r.start_ordinal l.end_ordinal
overlap_case true true l r = false

unfoldable pub overlaps : FastEdit → FastEdit → Bool
overlaps left right = overlap_case (is_insertion left) (is_insertion right) left right

-- `.ok().flatten()`
abbrev pub ok_flatten {ℓ} : {A : Type ℓ} → Result SnapshotError (Option A) → Option A
ok_flatten (ok found) = found
ok_flatten (err e) = none

unfoldable pub resolve_boundary : Crates → Snapshot → Position → Option (ℕ × ℕ)
resolve_boundary c s p =
    if leb p.line s.line_count
    then elim (ok_flatten (line_start c s p.line)) [
      | none ↦ none
      | some start ↦ if not (start == p.byte) then none else some (p.line - 1, p.byte)
    ]
    else if is_at (checked_add u64_max s.line_count 1) p.line && p.byte == s.byte_len
    then some (s.line_count, p.byte)
    else none

infixl 5 ◌>>=◌
abbrev ◌>>=◌ {ℓ κ} : {A : Type ℓ} {B : Type κ} → Option A → (A → Option B) → Option B
none >>= f = none
some a >>= f = f a

-- one round of the validation loop
unfoldable pub validate_fast : Crates → Snapshot → ℕ → EditOperation → Option FastEdit
unfolding resolve_boundary
validate_fast c s index operation = elim (c.memchr 0 operation.content) [
  | some at ↦ none
  | none ↦ do
    (start_ordinal, start_byte) ← resolve_boundary c s operation.start
    (end_ordinal, end_byte) ← resolve_boundary c s operation.end
    if ltb end_ordinal start_ordinal
        then none
        else some (record {
          index = index;
          start_ordinal = start_ordinal;
          end_ordinal = end_ordinal;
          start_byte = start_byte;
          end_byte = end_byte;
          content = operation.content;
        })
]

unfoldable pub validate_all : Crates → Snapshot → ℕ → List EditOperation → Option (List FastEdit)
validate_all c s index [] = some []
validate_all c s index (operation ∷ rest) = do
  edit ← validate_fast c s index operation
  edits ← validate_all c s (index + 1) rest
  some (edit ∷ edits)

-- from the overlap test on
unfoldable pub splice_fast : Bytes → List FastEdit → Option Bytes
unfolding overlaps first_overlap final_length sort_by_key splice
splice_fast source edits = elim (first_overlap overlaps edits) [
  | some pair ↦ none
  | none ↦ do
    total ← final_length source edits
    checked ← to_option (validate_file_size total)
    some (splice source (sort_by_key edits) [] 0)
]

unfoldable pub try_fast : Crates → Snapshot → EditRequest → Option Bytes
unfolding validate_all splice_fast
try_fast c s request = do
  valid ← to_option (validate_edit request)
  if not (request.snapshot == s.id)
      then none
      else do edits ← validate_all c s 0 request.edits; splice_fast s.text edits

unfoldable pub apply_edits_fast : Crates → Snapshot → EditRequest → Result ProtocolError Bytes
apply_edits_fast c s request = elim (try_fast c s request) [
  | some applied ↦ ok applied
  | none ↦ apply_versioned_reference_edits s.text s.id request
]
