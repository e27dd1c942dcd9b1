-- ===== src/Protocol/Edits/Accepted.antt =====
-- What an accepted edit batch produces.
use hashline_rs.Prelude.{
  ℕ, ◌+◌, ◌≤◌, ◌≡◌, sym, ap, ◌∙◌, List, [], ◌∷◌, none, some, arith, ok, Result-cases, Bytes, All,
  AllPairs, Option-cases, inl, inr, length,
}
use hashline_rs.Protocol.Errors.{max_file_bytes, validate_file_size}
use hashline_rs.Protocol.Text.{validate_text}
use hashline_rs.Protocol.Text.Policy.{IsText, validate_text→IsText}
use hashline_rs.Protocol.Lines.{reference_line_starts}
use hashline_rs.Protocol.Lines.Starts.{byte_at-zero}
use hashline_rs.Protocol.Edits.{
  EditOperation, ValidatedEdit, edits_overlap, first_overlap, final_length, removed_bytes,
  added_bytes, sort_by_key, splice, apply_validated, apply_reference_edits, validate_operations,
  validate_edit_count,
}
use hashline_rs.Protocol.Edits.Order.{Before, IsForward, sort_by_key-Before, All-sort_by_key}
use hashline_rs.Protocol.Edits.Validated.{HasText, IsValidated, validate_operations-IsValidated}
use hashline_rs.Protocol.Edits.Output.{
  sum_of, pieces, Ahead, splice-pieces, length-pieces, IsUtf8-pieces, Lacks-pieces,
  sum_of-sort_by_key, final_length-sums,
}

apply_validated-inversion :
    (source : Bytes) (edits : List ValidatedEdit) {out : Bytes}
    → apply_validated source edits ≡ ok out
    → (first_overlap edits_overlap edits ≡ none)
      × ((n : ℕ) × (final_length source edits ≡ some n)
          × (n ≤ max_file_bytes)
          × (out ≡ splice source (sort_by_key edits) [] 0))
unfolding apply_validated validate_file_size
apply_validated-inversion source edits {out} h =
    elim (Option-cases (first_overlap edits_overlap edits)) [
      | inr (pair, e) ↦ absurd (ground arith)
      | inl e ↦ elim (Option-cases (final_length source edits)) [
        | inl f ↦ absurd (ground arith)
        | inr (n, f) ↦ (e, (n, f, ground arith, ground arith))
      ]
    ]

apply_reference_edits-inversion :
    (source : Bytes) (operations : List EditOperation) {out : Bytes}
    → apply_reference_edits source operations ≡ ok out
    → (validate_text source ≡ ok source)
      × ((edits : List ValidatedEdit) × (validate_operations source
              (reference_line_starts source)
              0
              operations
            ≡ ok edits)
          × (apply_validated source edits ≡ ok out))
unfolding apply_reference_edits
apply_reference_edits-inversion source operations {out} h =
    elim (Result-cases (validate_edit_count (length operations))) [
      | inr (x, e) ↦ absurd (ground arith)
      | inl (u, e) ↦ elim (Result-cases (validate_text source)) [
        | inr (x, f) ↦ absurd (ground arith)
        | inl (t, f) ↦
            let same : t ≡ source = (validate_text→IsText source f).1 in
            let f' : validate_text source ≡ ok source = rw same at f in
            elim (Result-cases
              (validate_operations source (reference_line_starts source) 0 operations)) [
                | inr (x, g) ↦ absurd (ground arith)
                | inl (edits, g) ↦ (f', (edits, g, ground arith))
              ]
      ]
    ]

none-Ahead : (es : List ValidatedEdit) → All (Ahead 0) es
none-Ahead [] = tt
none-Ahead (e ∷ es) = (omega arith, none-Ahead es)

All-IsForward :
    (source : Bytes) (es : List ValidatedEdit) → All (IsValidated source) es → All IsForward es
All-IsForward source [] h = tt
All-IsForward source (e ∷ es) (v, vs) = (v.forward, All-IsForward source es vs)

-- The operations of an accepted batch, and what they make of the source.
pub record Outcome (source : Bytes) (operations : List EditOperation) (out : Bytes) : Type 0 where
  pub edits : List ValidatedEdit
  pub resolved : validate_operations source (reference_line_starts source) 0 operations ≡ ok edits
  -- sorted, each operation ends before the later ones begin
  pub before : AllPairs Before (sort_by_key edits)
  -- the text between them is kept, and that of each is replaced
  pub spliced : out ≡ pieces source 0 (sort_by_key edits)
  -- the length is exact
  pub length_eq : length out + sum_of removed_bytes edits ≡ length source + sum_of added_bytes edits
  -- the checks of the text policy need no second run
  pub text : IsText out

-- An accepted batch of operations with UTF-8 contents keeps the source between its operations,
-- replaces what they name, and its output has the exact length and is text that the policy accepts.
pub apply_reference_edits-Outcome :
    (source : Bytes) (operations : List EditOperation) {out : Bytes}
    → All HasText operations
    → apply_reference_edits source operations ≡ ok out
    → Outcome source operations out
apply_reference_edits-Outcome source operations {out} utf8 h =
    let (valid, (edits, resolved, applied)) = apply_reference_edits-inversion source operations h in
    outcome (validate_text→IsText source valid).0 edits resolved
      (apply_validated-inversion source edits applied)
  where
    outcome :
        IsText source
        → (edits : List ValidatedEdit)
        → validate_operations source (reference_line_starts source) 0 operations ≡ ok edits
        → (first_overlap edits_overlap edits ≡ none)
          × ((n : ℕ) × (final_length source edits ≡ some n)
              × (n ≤ max_file_bytes)
              × (out ≡ splice source (sort_by_key edits) [] 0))
        → Outcome source operations out
    outcome text edits resolved (apart, (n, total, small, made)) =
        let valid : All (IsValidated source) edits =
          validate_operations-IsValidated source 0 operations utf8 resolved in
        let sorted : All (IsValidated source) (sort_by_key edits) =
          All-sort_by_key (IsValidated source) edits valid in
        let before = sort_by_key-Before edits (All-IsForward source edits valid) apart in
        let ahead = none-Ahead (sort_by_key edits) in
        let spliced : out ≡ pieces source 0 (sort_by_key edits) =
          made
          ∙ ap (splice source (sort_by_key edits) []) (sym (byte_at-zero source))
          ∙ splice-pieces source (sort_by_key edits) [] 0 sorted before ahead in
        let count = length-pieces source (sort_by_key edits) 0 sorted before ahead in
        let exact : length out + sum_of removed_bytes edits
            ≡ length source + sum_of added_bytes edits =
          omega (
            arith,
            ap length spliced,
            count,
            byte_at-zero source,
            sum_of-sort_by_key removed_bytes edits,
            sum_of-sort_by_key added_bytes edits,
          ) in
        record {
          edits = edits;
          resolved = resolved;
          before = before;
          spliced = spliced;
          length_eq = exact;
          text = record {
            small = omega (arith, exact, final_length-sums source edits total);
            no_nul = rw spliced (Lacks-pieces source (sort_by_key edits) 0 text.no_nul sorted);
            utf8 =
                rw spliced
                  (IsUtf8-pieces source (sort_by_key edits) 0 text.utf8 sorted before ahead);
          };
        }
