-- ===== src/Protocol/Codec/Position.antt =====
-- `Position` of src/protocol.rs: a one-based line and a byte offset, shown as `LINE@BYTE`.
pub mod RoundTrip
use hashline_rs.Prelude.{
  ℕ, ◌≤◌, ◌≡◌, refl, Bool, true, false, not, List, [], ◌∷◌, ◌++◌, arith, ◌==◌, if◌then◌else◌,
  Option, none, some, Result, ok, err, ◌>>=◌, ok_or, Bytes, codes, u64_max,
}
use hashline_rs.Protocol.Codec.Decimal.{
  decimal, DecimalComponent, PositionParseError, zero_line, missing_separator, extra_separator,
  parse_canonical_decimal,
}

pub record Position : Type 0 where
  pub line : ℕ
  pub byte : ℕ

-- `Position::new`
abbrev pub new : ℕ → ℕ → Result PositionParseError Position
new l b = if l == 0 then err zero_line else ok (record { line = l; byte = b })

unfoldable pub display : Position → Bytes
display p = decimal p.line ++ b'@' ∷ decimal p.byte

-- `str::split_once` with a one-byte separator
split_once : ℕ → Bytes → Option (Bytes × Bytes)
split_once sep [] = none
split_once sep (c ∷ s) = elim (c == sep) [
  | true ↦ some ([], s)
  | false ↦ elim (split_once sep s) [ none ↦ none | some (a, b) ↦ some (c ∷ a, b) ]
]

-- `str::contains` of one byte
contains : ℕ → Bytes → Bool
contains b [] = false
contains b (c ∷ s) = if c == b then true else contains b s

unfoldable pub from_str : Bytes → Result PositionParseError Position
unfolding split_once contains
from_str input = do
  (l, b) ← ok_or missing_separator (split_once b'@' input)
  if contains b'@' b then err extra_separator else do
    line ← parse_canonical_decimal l DecimalComponent.line
    byte ← parse_canonical_decimal b DecimalComponent.byte
    new line byte

from_str_test : from_str (codes "12@345") ≡ ok (record { line = 12; byte = 345 })
unfolding from_str parse_canonical_decimal
from_str_test = refl
