-- ===== src/Protocol/Lines.antt =====
-- Logical lines of a text: `reference_line_starts`, `boundary_ordinal` and
-- `validate_reference_position` of src/protocol.rs.
pub mod Starts
use hashline_rs.Prelude.{
  ℕ, ◌+◌, ◌-◌, ◌≡◌, refl, Bool, true, false, ◌&&◌, ◌||◌, List, [], ◌∷◌, Option, none, some, leb,
  ◌==◌, if◌then◌else◌, Result, ok, err, ◌>>=◌, ◌>>◌, Bytes, codes, length, get_elem?,
}
use hashline_rs.Protocol.Codec.Position.{Position}
use hashline_rs.Protocol.Errors.{ContractError, invalid_position}
use hashline_rs.Protocol.Text.{validate_text}

abbrev pub newline : ℕ
newline = 0x0a

-- the `for` loop: the starts behind each newline of the text from `index` on
unfoldable pub starts_after : ℕ → Bytes → List ℕ
starts_after index [] = []
starts_after index (b ∷ s) =
    let rest = starts_after (index + 1) s in if b == newline then (index + 1) ∷ rest else rest

unfoldable pub reference_line_starts : Bytes → List ℕ
unfolding starts_after
reference_line_starts text = 0 ∷ starts_after 0 text

-- `starts.get(index) == Some(&byte)`
abbrev pub is_at : Option ℕ → ℕ → Bool
is_at none byte = false
is_at (some start) byte = start == byte

unfoldable pub boundary_ordinal : Bytes → List ℕ → Position → Result ContractError ℕ
boundary_ordinal text starts p =
    if leb p.line (length starts)
    then if is_at (get_elem? starts (p.line - 1)) p.byte
      then ok (p.line - 1)
      else err (invalid_position p)
    else if p.line == length starts + 1 && p.byte == length text
    then ok (length starts)
    else err (invalid_position p)

unfoldable pub validate_reference_position : Bytes → Position → Result ContractError (Unit {0})
unfolding boundary_ordinal
validate_reference_position bytes p = do
  text ← validate_text bytes
  ordinal ← boundary_ordinal text (reference_line_starts text) p
  ok tt

starts_test : reference_line_starts (codes "a\nbc\n") ≡ 0 ∷ 2 ∷ 5 ∷ []
unfolding reference_line_starts
starts_test = refl
