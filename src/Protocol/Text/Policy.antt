-- ===== src/Protocol/Text/Policy.antt =====
-- The text policy as a predicate: a text is accepted exactly when it is within the size cap, has no
-- NUL and is valid UTF-8.
use hashline_rs.Prelude.{
  ◌≤◌, ◌≡◌, ◌↔◌, none, arith, ok, Bytes, length, position, Lacks, position-none, position-Lacks,
}
use hashline_rs.Protocol.Errors.{max_file_bytes}
use hashline_rs.Protocol.Text.{validate_text, from_utf8}
use hashline_rs.Protocol.Text.Splice.{IsUtf8, from_utf8→IsUtf8, IsUtf8→from_utf8}

pub record IsText (s : Bytes) : Type 0 where
  pub small : length s ≤ max_file_bytes
  pub no_nul : Lacks 0 s
  pub utf8 : IsUtf8 s

inversion :
    (s : Bytes) {t : Bytes}
    → validate_text s ≡ ok t
    → (length s ≤ max_file_bytes) × (position 0 s ≡ none) × (from_utf8 s ≡ none) × (t ≡ s)
unfolding validate_text
inversion s h = (ground arith, ground arith, ground arith, ground arith)

pub validate_text→IsText : (s : Bytes) {t : Bytes} → validate_text s ≡ ok t → IsText s × (t ≡ s)
validate_text→IsText s h =
    let (small, nul, utf, same) = inversion s h in
    (record { small = small; no_nul = position-none 0 s nul; utf8 = from_utf8→IsUtf8 s utf }, same)

pub IsText→validate_text : (s : Bytes) → IsText s → validate_text s ≡ ok s
unfolding validate_text
IsText→validate_text s h =
    let nul = position-Lacks 0 s h.no_nul in
    let utf = IsUtf8→from_utf8 s h.utf8 in let small = h.small in ground arith

-- `validate_text` accepts exactly the texts of the policy, and answers with the very bytes.
pub validate_text_iff : (s : Bytes) → (validate_text s ≡ ok s) ↔ IsText s
validate_text_iff s = (λ h. (validate_text→IsText s h).0, IsText→validate_text s)
