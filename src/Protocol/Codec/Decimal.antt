-- ===== src/Protocol/Codec/Decimal.antt =====
-- `parse_canonical_decimal` of src/protocol.rs, and the standard library's `{}` of an unsigned
-- integer, which `Position` is displayed with.
pub mod RoundTrip
use hashline_rs.Prelude.{
  ℕ, zero, suc, ◌+◌, ◌-◌, ◌/◌, ◌%◌, ◌≡◌, refl, Bool, false, ◌||◌, ◌&&◌, not, [], ◌∷◌, ◌++◌, ltb,
  leb, ◌==◌, if◌then◌else◌, Result, ok, err, ◌>>=◌, ok_or, Bytes, all, length, u64_max, checked_add,
  checked_mul,
}

-- `write!("{n}")`, one digit for each unit of fuel; a number has fewer digits than `suc n`.
digits : ℕ → ℕ → Bytes
digits zero n = []
digits (suc fuel) n =
    let rest = digits fuel (n / 10) in
    if ltb n 10 then (b'0' + n) ∷ [] else rest ++ (b'0' + n % 10) ∷ []

unfoldable pub decimal : ℕ → Bytes
unfolding digits
decimal n = digits (suc n) n

pub data PositionParseError : Type 0 where
  missing_separator extra_separator invalid_line zero_line line_overflow : PositionParseError
  invalid_byte byte_overflow : PositionParseError

pub data DecimalComponent : Type 0 where
  line byte : DecimalComponent

abbrev pub invalid : DecimalComponent → PositionParseError
invalid line = invalid_line
invalid byte = invalid_byte

abbrev pub overflow : DecimalComponent → PositionParseError
overflow line = line_overflow
overflow byte = byte_overflow

abbrev pub is_ascii_digit : ℕ → Bool
is_ascii_digit c = leb b'0' c && leb c b'9'

abbrev starts_with_zero : Bytes → Bool
starts_with_zero [] = false
starts_with_zero (c ∷ s) = c == b'0'

-- the `for` loop, from the value read so far
accumulate : DecimalComponent → ℕ → Bytes → Result PositionParseError ℕ
accumulate component value [] = ok value
accumulate component value (b ∷ s) = do
  tens ← ok_or (overflow component) (checked_mul u64_max value 10)
  next ← ok_or (overflow component) (checked_add u64_max tens (b - b'0'))
  accumulate component next s

unfoldable pub reject_zero_line : DecimalComponent → ℕ → Result PositionParseError ℕ
reject_zero_line line value = if value == 0 then err zero_line else ok value
reject_zero_line byte value = ok value

unfoldable pub parse_canonical_decimal : Bytes → DecimalComponent → Result PositionParseError ℕ
unfolding accumulate reject_zero_line
parse_canonical_decimal input component =
    if length input == 0
      || (ltb 1 (length input) && starts_with_zero input)
      || not (all is_ascii_digit input)
    then err (invalid component)
    else (accumulate component 0 input >>= reject_zero_line component)

decimal_test : decimal 1203 ≡ b'1' ∷ b'2' ∷ b'0' ∷ b'3' ∷ []
unfolding decimal
decimal_test = refl

parse_test : parse_canonical_decimal (b'4' ∷ b'2' ∷ []) byte ≡ ok 42
unfolding parse_canonical_decimal
parse_test = refl
