-- ===== src/Protocol/Edits.antt =====
-- `apply_reference_edits` of src/protocol.rs: the byte-vector model of an edit batch.
pub mod Order
pub mod Validated
pub mod Output
pub mod Accepted
use hashline_rs.Prelude.{
  ℕ, zero, suc, ◌+◌, ◌-◌, ◌≡◌, refl, Bool, true, false, not, ◌&&◌, ◌||◌, List, [], ◌∷◌, ◌++◌,
  Option, none, some, ltb, leb, ◌==◌, if◌then◌else◌, Result, ok, err, ◌>>=◌, ◌>>◌, ok_or, Bytes,
  codes, length, drop, slice, position, u64_max, checked_add, checked_sub,
}
use hashline_rs.Protocol.Codec.Position.{Position}
use hashline_rs.Protocol.Errors.{
  ContractError, empty_edit_batch, too_many_edits, nul_replacement, reversed_range,
  overlapping_edits, output_length_overflow, max_edit_operations, validate_file_size,
}
use hashline_rs.Protocol.Text.{validate_text, from_utf8}
use hashline_rs.Protocol.Lines.{reference_line_starts, boundary_ordinal}

-- `EditOperation::Replace`, the only operation
pub record EditOperation : Type 0 where
  pub start : Position
  pub end : Position
  pub content : Bytes

unfoldable pub validate_edit_count : ℕ → Result ContractError (Unit {0})
validate_edit_count count =
    if count == 0
    then err empty_edit_batch
    else if ltb max_edit_operations count
    then err (too_many_edits count)
    else ok tt

pub record ValidatedEdit : Type 0 where
  pub index : ℕ
  pub start_ordinal : ℕ
  pub end_ordinal : ℕ
  pub start_byte : ℕ
  pub end_byte : ℕ
  pub content : Bytes

abbrev pub is_insertion : ValidatedEdit → Bool
is_insertion e = e.start_ordinal == e.end_ordinal

abbrev pub overlap_case : Bool → Bool → ValidatedEdit → ValidatedEdit → Bool
overlap_case false false l r =
    ltb l.start_ordinal r.end_ordinal && ltb r.start_ordinal l.end_ordinal
overlap_case true false l r =
    ltb r.start_ordinal l.start_ordinal && ltb l.start_ordinal r.end_ordinal
overlap_case false true l r =
    ltb l.start_ordinal r.start_ordinal && ltb r.start_ordinal l.end_ordinal
overlap_case true true l r = false

unfoldable pub edits_overlap : ValidatedEdit → ValidatedEdit → Bool
edits_overlap left right = overlap_case (is_insertion left) (is_insertion right) left right

-- `content.bytes().position(|byte| byte == 0)` as an error
abbrev pub nul_in_replacement : ℕ → Bytes → Result ContractError (Unit {0})
nul_in_replacement index content = elim (position 0 content) [
  | none ↦ ok tt
  | some byte ↦ err (nul_replacement index byte)
]

-- one round of the validation loop
unfoldable pub validate_operation :
    Bytes → List ℕ → ℕ → EditOperation → Result ContractError ValidatedEdit
validate_operation text starts index operation = do
  nul_in_replacement index operation.content
  start_ordinal ← boundary_ordinal text starts operation.start
  end_ordinal ← boundary_ordinal text starts operation.end
  if ltb end_ordinal start_ordinal
      then err (reversed_range operation.start operation.end)
      else ok (record {
        index = index;
        start_ordinal = start_ordinal;
        end_ordinal = end_ordinal;
        start_byte = operation.start.byte;
        end_byte = operation.end.byte;
        content = operation.content;
      })

unfoldable pub validate_operations :
    Bytes → List ℕ → ℕ → List EditOperation → Result ContractError (List ValidatedEdit)
validate_operations text starts index [] = ok []
validate_operations text starts index (operation ∷ rest) = do
  edit ← validate_operation text starts index operation
  edits ← validate_operations text starts (index + 1) rest
  ok (edit ∷ edits)

-- the inner loop over `right`
unfoldable pub overlap_with :
    (ValidatedEdit → ValidatedEdit → Bool) → ValidatedEdit → List ValidatedEdit → Option (ℕ × ℕ)
overlap_with overlaps left [] = none
overlap_with overlaps left (right ∷ rest) =
    let later = overlap_with overlaps left rest in
    if overlaps left right then some (left.index, right.index) else later

-- the outer loop over `left`: the first conflicting pair in request order
unfoldable pub first_overlap :
    (ValidatedEdit → ValidatedEdit → Bool) → List ValidatedEdit → Option (ℕ × ℕ)
unfolding overlap_with
first_overlap overlaps [] = none
first_overlap overlaps (left ∷ rest) = elim (overlap_with overlaps left rest) [
  | none ↦ first_overlap overlaps rest
  | some pair ↦ some pair
]

-- `try_fold(0, checked_add)` of a size of each operation
unfoldable pub checked_total : (ValidatedEdit → ℕ) → ℕ → List ValidatedEdit → Option ℕ
checked_total size total [] = some total
checked_total size total (e ∷ es) = elim (checked_add u64_max total (size e)) [
  | none ↦ none
  | some total' ↦ checked_total size total' es
]

abbrev pub removed_bytes : ValidatedEdit → ℕ
removed_bytes e = e.end_byte - e.start_byte

abbrev pub added_bytes : ValidatedEdit → ℕ
added_bytes e = length e.content

-- the length of the output, every step checked
unfoldable pub final_length : Bytes → List ValidatedEdit → Option ℕ
unfolding checked_total
final_length source edits = elim (checked_total removed_bytes 0 edits) [
  | none ↦ none
  | some removed ↦ elim (checked_total added_bytes 0 edits) [
    | none ↦ none
    | some added ↦ elim (checked_sub (length source) removed) [
      | none ↦ none
      | some kept ↦ checked_add u64_max kept added
    ]
  ]
]

-- `(start_ordinal, u8::from(!is_insertion), index)`, compared in this order
abbrev pub key_le : ValidatedEdit → ValidatedEdit → Bool
key_le a b =
    if a.start_ordinal == b.start_ordinal
    then if is_insertion a
      then if is_insertion b then leb a.index b.index else true
      else if is_insertion b
      then false
      else leb a.index b.index
    else ltb a.start_ordinal b.start_ordinal

unfoldable pub insert_by_key : ValidatedEdit → List ValidatedEdit → List ValidatedEdit
insert_by_key x [] = x ∷ []
insert_by_key x (y ∷ ys) = if key_le x y then x ∷ y ∷ ys else y ∷ insert_by_key x ys

-- the stable `sort_by_key`
unfoldable pub sort_by_key : List ValidatedEdit → List ValidatedEdit
unfolding insert_by_key
sort_by_key [] = []
sort_by_key (x ∷ xs) = insert_by_key x (sort_by_key xs)

-- the last loop, over `output` and `cursor`
unfoldable pub splice : Bytes → List ValidatedEdit → Bytes → ℕ → Bytes
splice source [] output cursor = output ++ drop cursor source
splice source (e ∷ es) output cursor =
    let behind = ltb cursor e.start_byte in
    let kept = if behind then output ++ slice cursor e.start_byte source else output in
    let reached = if behind then e.start_byte else cursor in
    splice source es (kept ++ e.content) (if is_insertion e then reached else e.end_byte)

unfoldable pub apply_validated : Bytes → List ValidatedEdit → Result ContractError Bytes
unfolding sort_by_key splice edits_overlap first_overlap final_length
apply_validated source edits = elim (first_overlap edits_overlap edits) [
  | some (first, second) ↦ err (overlapping_edits first second)
  | none ↦
      (ok_or output_length_overflow (final_length source edits) >>= λ total.
      validate_file_size total >>= λ _. ok (splice source (sort_by_key edits) [] 0))
]

unfoldable pub apply_reference_edits : Bytes → List EditOperation → Result ContractError Bytes
unfolding validate_edit_count validate_operations apply_validated
apply_reference_edits source operations = do
  validate_edit_count (length operations)
  text ← validate_text source
  edits ← validate_operations text (reference_line_starts text) 0 operations
  apply_validated source edits

abbrev sample : Bytes
sample = codes "alpha\nbeta\ngamma\n"

abbrev swap_beta : List EditOperation
swap_beta =
    (record {
      start = record { line = 2; byte = 6 };
      end = record { line = 3; byte = 11 };
      content = codes "X\n";
    })
    ∷ (record {
      start = record { line = 2; byte = 6 };
      end = record { line = 2; byte = 6 };
      content = codes "ins\n";
    })
    ∷ []

apply_test : apply_reference_edits sample swap_beta ≡ ok (codes "alpha\nins\nX\ngamma\n")
unfolding apply_reference_edits validate_text reference_line_starts validate_operation
    boundary_ordinal validate_file_size position from_utf8
apply_test = refl
