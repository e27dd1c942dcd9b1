-- ===== src/Protocol/Codec/SnapshotId.antt =====
-- `SnapshotId` of src/protocol.rs: a 128-bit identity, shown as 32 lowercase hexadecimal digits.
pub mod RoundTrip
use hashline_rs.Prelude.{
  ℕ, zero, suc, ◌+◌, ◌-◌, ◌/◌, ◌%◌, ◌≡◌, refl, Bool, not, [], ◌∷◌, ◌++◌, ◌&&◌, ◌||◌, ltb, leb, ◌==◌,
  if◌then◌else◌, Option, none, some, Result, ok, err, ◌>>=◌, ok_or, map_err, Bytes, codes, all,
  length, u128_max, checked_add, checked_mul,
}

-- The raw u128.
abbrev pub SnapshotId : Type 0
SnapshotId = ℕ

abbrev pub snapshot_id_hex_len : ℕ
snapshot_id_hex_len = 32

pub data SnapshotIdParseError : Type 0 where
  invalid_length invalid_character : SnapshotIdParseError

abbrev hex_digit : ℕ → ℕ
hex_digit d = if ltb d 10 then b'0' + d else b'a' - 10 + d

-- the last `width` hexadecimal digits of `n`
hex : ℕ → ℕ → Bytes
hex zero n = []
hex (suc width) n = hex width (n / 16) ++ hex_digit (n % 16) ∷ []

-- `{:032x}`; a u128 has at most 32 digits
unfoldable pub display : SnapshotId → Bytes
unfolding hex
display id = hex snapshot_id_hex_len id

abbrev is_lower_hex : ℕ → Bool
is_lower_hex c = (leb b'0' c && leb c b'9') || (leb b'a' c && leb c b'f')

-- `char::to_digit(16)` of a lowercase hexadecimal digit
abbrev digit_value : ℕ → ℕ
digit_value c = if leb c b'9' then c - b'0' else c - b'a' + 10

-- `u128::from_str_radix(_, 16)` of lowercase digits, from the value read so far
from_str_radix : ℕ → Bytes → Option ℕ
from_str_radix value [] = some value
from_str_radix value (c ∷ s) = elim (checked_mul u128_max value 16) [
  | none ↦ none
  | some shifted ↦ elim (checked_add u128_max shifted (digit_value c)) [
    | none ↦ none
    | some next ↦ from_str_radix next s
  ]
]

unfoldable pub from_str : Bytes → Result SnapshotIdParseError SnapshotId
unfolding from_str_radix
from_str input =
    if not (length input == snapshot_id_hex_len)
    then err invalid_length
    else if not (all is_lower_hex input)
    then err invalid_character
    else ok_or invalid_character (from_str_radix 0 input)

display_test : display 0xbeef ≡ codes "0000000000000000000000000000beef"
unfolding display
display_test = refl

from_str_test : from_str (codes "0000000000000000000000000000beef") ≡ ok 0xbeef
unfolding from_str
from_str_test = refl
