-- ===== src/Protocol/Edits/Validated.antt =====
-- What the validation loop establishes of each operation.
use hashline_rs.Prelude.{
  ℕ, ◌+◌, ◌≤◌, ◌≡◌, List, [], ◌∷◌, none, arith, ok, Result-cases, Bytes, All, position, inl, inr,
}
use hashline_rs.Protocol.Text.Splice.{IsUtf8}
use hashline_rs.Protocol.Lines.{reference_line_starts, boundary_ordinal}
use hashline_rs.Protocol.Lines.Starts.{byte_at, boundary_ordinal-byte_at}
use hashline_rs.Protocol.Edits.{
  EditOperation, ValidatedEdit, validate_operation, validate_operations,
}

-- The content of a `String`: valid UTF-8.
abbrev pub HasText : EditOperation → Type 0
HasText operation = IsUtf8 operation.content

pub record IsValidated (source : Bytes) (e : ValidatedEdit) : Type 0 where
  pub forward : e.start_ordinal ≤ e.end_ordinal
  pub start_eq : e.start_byte ≡ byte_at source e.start_ordinal
  pub end_eq : e.end_byte ≡ byte_at source e.end_ordinal
  pub no_nul : position 0 e.content ≡ none
  pub utf8 : IsUtf8 e.content

validate_operation-IsValidated :
    (source : Bytes) (index : ℕ) (operation : EditOperation) {e : ValidatedEdit}
    → HasText operation
    → validate_operation source (reference_line_starts source) index operation ≡ ok e
    → IsValidated source e
unfolding validate_operation
validate_operation-IsValidated source index operation {e} text h =
    elim (Result-cases (boundary_ordinal source (reference_line_starts source) operation.start)) [
      | inr (x, hs) ↦ absurd (ground arith)
      | inl (so, hs) ↦
          elim (Result-cases
            (boundary_ordinal source (reference_line_starts source) operation.end)) [
              | inr (x, he) ↦ absurd (ground arith)
              | inl (eo, he) ↦
                  let s = boundary_ordinal-byte_at source operation.start hs in
                  let t = boundary_ordinal-byte_at source operation.end he in ground arith
            ]
    ]

pub validate_operations-IsValidated :
    (source : Bytes) (index : ℕ) (operations : List EditOperation) {edits : List ValidatedEdit}
    → All HasText operations
    → validate_operations source (reference_line_starts source) index operations ≡ ok edits
    → All (IsValidated source) edits
unfolding validate_operations
validate_operations-IsValidated source index [] {edits} h k =
    let e : edits ≡ [] = ground arith in rw e tt
validate_operations-IsValidated source index (operation ∷ rest) {edits} (h, hs) k =
    elim (Result-cases (validate_operation source (reference_line_starts source) index operation)) [
      | inr (x, bad) ↦ absurd (ground arith)
      | inl (first, good) ↦
          elim (Result-cases
            (validate_operations source (reference_line_starts source) (index + 1) rest)) [
              | inr (x, bad) ↦ absurd (ground arith)
              | inl (later, fine) ↦
                  let e : edits ≡ first ∷ later = ground arith in
                  rw e (
                    validate_operation-IsValidated source index operation h good,
                    validate_operations-IsValidated source (index + 1) rest hs fine,
                  )
            ]
    ]
